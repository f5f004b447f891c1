-- ===== src/SerialPorts/Status.antt =====
-- The invariant of a port's status.
use orchestrator_agent.Prelude.{
  ◌≡◌, refl, String, Option, none, some, List, [], ◌∷◌, map, arith, All, str_eq, eq_iff,
  if◌then◌else◌, Bool-cases, inl, inr,
}
use orchestrator_agent.Prelude.Dict.{
  Dict, lookup, remove, contains, AllValues, AllValues-insert, AllValues-remove, AllValues-lookup,
}
use orchestrator_agent.SerialPorts.{
  File, read_json_file, Write, written, not_opened, cut_short, write_json_file, modify, SerialPort,
  Config, initialized, Ports, save_configs, delete_configs, Attached, cleared_if_disconnected,
  with_status, is_named, update_first, update_found, update_status,
}

-- A disconnected port names no device node.
abbrev IsClear : SerialPort → Type 0
IsClear p =
    p.status ≡ "disconnected" → (p.current_host_path ≡ none) × ((p.major ≡ none) × (p.minor ≡ none))

abbrev pub AllClear : File (Dict Ports) → Type 0
AllClear file = AllValues (All IsClear) (read_json_file file)

with_status-IsClear :
    (status : String) (a : Attached) (p : SerialPort) → IsClear (with_status status a p)
unfolding with_status cleared_if_disconnected
with_status-IsClear status a p = elim (Bool-cases (str_eq status "disconnected")) [
  | inl off ↦ rw off (λ _. (refl, (refl, refl)))
  | inr on ↦ rw on (λ e. absurd (ground (arith, eq_iff status "disconnected")))
]

update_first-IsClear :
    (n : Option String) (status : String) (a : Attached) (ps : Ports)
    → All IsClear ps
    → All IsClear (update_first n (with_status status a) ps)
unfolding update_first
update_first-IsClear n status a [] h = tt
update_first-IsClear n status a (p ∷ ps) h = elim (Bool-cases (is_named n p.name)) [
  | inl named ↦ rw named (with_status-IsClear status a p, h.1)
  | inr other ↦ rw other (h.0, update_first-IsClear n status a ps h.1)
]

initialized-IsClear : (configs : List Config) → All IsClear (map initialized configs)
unfolding initialized
initialized-IsClear [] = tt
initialized-IsClear (c ∷ cs) = (λ _. (refl, (refl, refl)), initialized-IsClear cs)

write-AllClear :
    (w : Write) (data' : Dict Ports) (file : File (Dict Ports))
    → AllValues (All IsClear) data'
    → AllClear file
    → AllClear (write_json_file w data' file)
unfolding write_json_file read_json_file
write-AllClear written data' file h f = h
write-AllClear not_opened data' file h f = f
write-AllClear cut_short data' file h f = tt

-- The calls that change the file.
pub data Change : Type 0 where
  save : String → List Config → Change
  delete : String → Change
  status : String → Option String → String → Attached → Change

unfoldable pub perform : Write → Change → File (Dict Ports) → File (Dict Ports)
unfolding save_configs delete_configs update_status
perform w (save container configs) file = save_configs w container configs file
perform w (delete container) file = delete_configs w container file
perform w (status container n s a) file = update_status w container n s a file

update_found-AllClear :
    (container : String) (n : Option String) (s : String) (a : Attached) (o : Option Ports)
    (data' : Dict Ports)
    → lookup container data' ≡ o
    → AllValues (All IsClear) data'
    → AllValues (All IsClear) (update_found container n (with_status s a) o data')
unfolding update_found
update_found-AllClear container n s a none data' e h = h
update_found-AllClear container n s a (some ports) data' e h =
    AllValues-insert (All IsClear) container _ data' h
      (update_first-IsClear n s a ports (AllValues-lookup (All IsClear) container data' h e))

delete-AllClear :
    (container : String) (data' : Dict Ports)
    → AllValues (All IsClear) data'
    → AllValues (All IsClear) (if contains container data' then remove container data' else data')
delete-AllClear container data' h = elim (Bool-cases (contains container data')) [
  | inl there ↦ rw there (AllValues-remove (All IsClear) container data' h)
  | inr absent ↦ rw absent h
]

-- Whatever ports are saved, deleted or given a status, and whatever becomes of the write: a port in
-- the file that is "disconnected" has no host path and no device numbers, if it was so before.
pub perform-AllClear :
    (w : Write) (c : Change) (file : File (Dict Ports))
    → AllClear file
    → AllClear (perform w c file)
unfolding perform save_configs delete_configs update_status modify
perform-AllClear w (save container configs) file h =
    write-AllClear w _ file
      (AllValues-insert (All IsClear) container _ (read_json_file file) h
        (initialized-IsClear configs))
      h
perform-AllClear w (delete container) file h =
    write-AllClear w _ file (delete-AllClear container (read_json_file file) h) h
perform-AllClear w (status container n s a) file h =
    write-AllClear w _ file
      (update_found-AllClear container n s a (lookup container (read_json_file file))
        (read_json_file file) refl h)
      h
