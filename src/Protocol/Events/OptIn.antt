-- ===== src/Protocol/Events/OptIn.antt =====
-- server/src/protocol/events.rs: a connection receives an event exactly when it asked for it.
use rs_matter_server.Prelude.{
  ◌≡◌, ◌↔◌, Bool, true, false, ◌||◌, ◌&&◌, List, [], ◌∷◌, any, arith, String, ◌==◌, ==_iff,
  text_ord, if◌then◌else◌,
}
use rs_matter_server.Prelude.Text.{Text, text}
use rs_matter_server.Protocol.Events.{
  EventClass, always, thread_diagnostics, network_topology, web_rtc, Event, EventSubscriptions,
  none_yet, observe_command, accepts, class_accepted,
}

-- The commands of a connection, in the order in which it issued them.
abbrev pub observe_all : EventSubscriptions → List Text → EventSubscriptions
observe_all s [] = s
observe_all s (command ∷ more) = observe_all (observe_command s command) more

abbrev pub issued : String → List Text → Bool
issued name commands = any (λ c. c == text name) commands

-- Which commands open a class of events.
abbrev pub opted_in : EventClass → List Text → Bool
opted_in always commands = true
opted_in thread_diagnostics commands =
    issued "get_thread_diagnostics" commands || issued "get_thread_border_routers" commands
opted_in network_topology commands = issued "get_network_topology" commands
opted_in web_rtc commands = issued "send_webrtc_provider_command" commands

-- The arms of the match, told apart.
abbrev arm_names : List Text
arm_names =
    text "start_listening"
    ∷ text "get_thread_diagnostics"
    ∷ text "get_thread_border_routers"
    ∷ text "get_network_topology"
    ∷ text "send_webrtc_provider_command"
    ∷ []

abbrev Arms : Text → List Text → Type 0
Arms c [] = Unit
Arms c (name ∷ names) = (((c == name) ≡ true) ↔ (c ≡ name)) × Arms c names

Arms-of : (c : Text) (names : List Text) → Arms c names
Arms-of c [] = tt
Arms-of c (name ∷ names) = (==_iff c name, Arms-of c names)

arms : (c : Text) → Arms c arm_names
arms c = Arms-of c arm_names

-- One command sets the flag that it opens and leaves the others.
module _ (s : EventSubscriptions) (c : Text) where
  listening-observe_command :
      (observe_command s c).listening ≡ (s.listening || c == text "start_listening")
  unfolding observe_command
  listening-observe_command = ground (arith, arms c)

  thread-observe_command : (observe_command s c).thread_diagnostics ≡ (
      s.thread_diagnostics
      || (c == text "get_thread_diagnostics" || c == text "get_thread_border_routers"))
  unfolding observe_command
  thread-observe_command = ground (arith, arms c)

  topology-observe_command :
      (observe_command s c).network_topology
      ≡ (s.network_topology || c == text "get_network_topology")
  unfolding observe_command
  topology-observe_command = ground (arith, arms c)

  webrtc-observe_command :
      (observe_command s c).webrtc ≡ (s.webrtc || c == text "send_webrtc_provider_command")
  unfolding observe_command
  webrtc-observe_command = ground (arith, arms c)

or_assoc : (a b c : Bool) → ((a || b) || c) ≡ (a || (b || c))
or_assoc a b c = ground arith

or_interleave : (a b c d e : Bool) → ((a || (b || c)) || (d || e)) ≡ (a || ((b || d) || (c || e)))
or_interleave a b c d e = ground arith

-- The flags after some commands: each was set before, or its command was issued.
module _ (name : String) (flag : EventSubscriptions → Bool)
    (step : (s : EventSubscriptions) (c : Text)
      → flag (observe_command s c) ≡ (flag s || c == text name)) where
  flag-observe_all :
      (s : EventSubscriptions) (commands : List Text)
      → flag (observe_all s commands) ≡ (flag s || issued name commands)
  flag-observe_all s [] = ground arith
  flag-observe_all s (c ∷ cs) =
      rw (flag-observe_all (observe_command s c) cs)
        (rw (step s c) (or_assoc (flag s) (c == text name) (issued name cs)))

thread-observe_all :
    (s : EventSubscriptions) (commands : List Text)
    → (observe_all s commands).thread_diagnostics
      ≡ (s.thread_diagnostics || opted_in thread_diagnostics commands)
thread-observe_all s [] = ground arith
thread-observe_all s (c ∷ cs) = rw (thread-observe_all (observe_command s c) cs) (
    rw (thread-observe_command s c) (
      or_interleave s.thread_diagnostics (c == text "get_thread_diagnostics")
        (c == text "get_thread_border_routers") (issued "get_thread_diagnostics" cs)
        (issued "get_thread_border_routers" cs)))

-- Whatever a connection has issued, it receives an event exactly when `start_listening` and a
-- command that opts in to the event's class are among it.
pub accepts_iff_opted_in :
    {N : Type 0} (commands : List Text) (event : Event N)
    → accepts (observe_all none_yet commands) event
      ≡ (issued "start_listening" commands && opted_in event.class commands)
unfolding accepts
accepts_iff_opted_in commands event = of event.class
  where
    heard : (observe_all none_yet commands).listening ≡ issued "start_listening" commands
    heard = flag-observe_all "start_listening" _ listening-observe_command none_yet commands

    of :
        (c : EventClass)
        → (if (observe_all none_yet commands).listening
            then class_accepted (observe_all none_yet commands) c
            else false)
          ≡ (issued "start_listening" commands && opted_in c commands)
    of always = rw heard (ground arith)
    of thread_diagnostics = rw (heard, thread-observe_all none_yet commands) (ground arith)
    of network_topology =
        rw
          (
            heard,
            flag-observe_all "get_network_topology" (λ s. s.network_topology)
                topology-observe_command none_yet commands,
          )
          (ground arith)
    of web_rtc =
        rw
          (
            heard,
            flag-observe_all "send_webrtc_provider_command" (λ s. s.webrtc) webrtc-observe_command
                none_yet commands,
          )
          (ground arith)
