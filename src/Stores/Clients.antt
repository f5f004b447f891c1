-- ===== src/Stores/Clients.antt =====
-- The clients' file and the clients in memory.
use orchestrator_agent.Prelude.{◌≡◌, refl, String, List, [], ◌∷◌, Bool-cases, inl, inr}
use orchestrator_agent.Prelude.Dict.{contains}
use orchestrator_agent.SerialPorts.{read_json_file, written, write_json_file}
use orchestrator_agent.Stores.{ClientRepo, open_repo, write_to_file, add_client, remove_client}

pub data ClientCall : Type 0 where
  add : String → String → ClientCall
  drop_client : String → ClientCall

unfoldable pub perform : ClientCall → ClientRepo → ClientRepo
unfolding add_client remove_client
perform (add name ip) r = add_client written name ip r
perform (drop_client name) r = remove_client written name r

unfoldable pub perform_all : List ClientCall → ClientRepo → ClientRepo
unfolding perform
perform_all [] r = r
perform_all (c ∷ cs) r = perform_all cs (perform c r)

abbrev pub IsMirrored : ClientRepo → Type 0
IsMirrored r = read_json_file r.clients_file ≡ r.clients

perform-IsMirrored : (c : ClientCall) (r : ClientRepo) → IsMirrored r → IsMirrored (perform c r)
unfolding perform add_client remove_client write_to_file write_json_file read_json_file
perform-IsMirrored (add name ip) r h = refl
perform-IsMirrored (drop_client name) r h = elim (Bool-cases (contains name r.clients)) [
  | inl there ↦ rw there refl
  | inr absent ↦ rw absent h
]

-- After any adding and removing of clients whose writes are done, a repository opened anew on the
-- file has the clients that the running one has in memory, if that was so before.
reopen_same :
    (cs : List ClientCall) (r : ClientRepo)
    → IsMirrored r
    → (open_repo (perform_all cs r).clients_file).clients ≡ (perform_all cs r).clients
unfolding open_repo perform_all
reopen_same [] r h = h
reopen_same (c ∷ cs) r h = reopen_same cs (perform c r) (perform-IsMirrored c r h)
