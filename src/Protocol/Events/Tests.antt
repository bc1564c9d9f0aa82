-- ===== src/Protocol/Events/Tests.antt =====
-- One connection's commands.
use rs_matter_server.Prelude.{ℕ, ◌≡◌, ◌&&◌, List, [], ◌∷◌}
use rs_matter_server.Prelude.Text.{Text, text}
use rs_matter_server.Protocol.Json.{Value}
use rs_matter_server.Protocol.Events.{Event, always, none_yet, accepts}
use rs_matter_server.Protocol.Events.OptIn.{observe_all, issued, opted_in, accepts_iff_opted_in}

abbrev commands : List Text
commands = text "start_listening" ∷ text "get_nodes" ∷ []

abbrev event : Event ℕ
event = record { class = always; payload = Value.null }

accepts_iff_opted_in_example :
    accepts (observe_all none_yet commands) event
    ≡ (issued "start_listening" commands && opted_in event.class commands)
accepts_iff_opted_in_example = accepts_iff_opted_in commands event
