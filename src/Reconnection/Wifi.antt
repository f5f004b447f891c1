-- ===== src/Reconnection/Wifi.antt =====
-- What src/use_cases/network_reconnection.py remembers of a WiFi vNIC with a static address.
use orchestrator_agent.Reconnection.{Vnics}
