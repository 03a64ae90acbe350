-- ===== src/RpcChat/Tests.antt =====
-- The theorems of the registries and of the client's parser at concrete inputs.
use cmpt436chat_client.Prelude.{
  Bool, List, [], ◌∷◌, none, some, true, false, count, ◌≡◌, refl, if◌then◌else◌,
}
use cmpt436chat_client.Text.{Text, codes, text_eq}
use cmpt436chat_client.Table.{lookup}
use cmpt436chat_client.RpcChat.Registry.{Registry, ok, get_client}
use cmpt436chat_client.RpcChat.Types.{Memory, Tid, call, loop, unlocked}
use cmpt436chat_client.RpcChat.Program.{Program, finish, listen, join, leave, expiry}
use cmpt436chat_client.RpcChat.Rooms.{on_signal, remembered}
use cmpt436chat_client.RpcChat.Receiver.{leaving}
use cmpt436chat_client.RpcChat.System.{System, arrive, go, tick, run, advance}
use cmpt436chat_client.RpcChat.Faults.{
  is_crashed, found_room, leave_nowhere_crashes, expiry_takes_name,
}
use cmpt436chat_client.RpcChat.Alone.{settle}
use cmpt436chat_client.RpcChat.Signals.{enters, leaves, visit_settles}
use cmpt436chat_client.RpcChat.Outcomes.{Signalled, signal_comes_to}
use cmpt436chat_client.RpcChat.Undisturbed.{handed, undisturbed}
use cmpt436chat_client.RpcChat.Program.{take, incoming, offer_all}
use cmpt436chat_client.RpcChat.Rooms.{broadcast}
use cmpt436chat_client.RpcChat.Types.{same_tid}
use cmpt436chat_client.RpcChat.System.{Event, meet, step, happen}
use cmpt436chat_client.RpcChat.ClientLoops.{
  World, Session, got, broken, running, exited, panicked, user_in, user_out, wait, mess_disc,
  quit_races,
}
use cmpt436chat_client.RpcChat.Client.{
  usr_parse, create_c_room, join_c_room, change_name, named_call,
}

abbrev two : Registry
two = (codes "a", 0) ∷ (codes "b", 1) ∷ []

named_call_example :
    (usr_parse (codes "!create go\n") ≡ create_c_room (codes "go") ∷ [])
    × (usr_parse (codes "!enter go\n") ≡ join_c_room (codes "go") ∷ [])
    × (usr_parse (codes "!name go\n") ≡ change_name (codes "go") ∷ [])
named_call_example = named_call (codes "go")

-- One registered client, in no room, and two rooms of one name, of which the map has the first;
-- both have expired.
abbrev den : Text
den = codes "den"

abbrev quiet : Memory
quiet = record {
  clients = λ c. record { token = codes "b"; name = codes "Bo"; c_room = none };
  rooms = λ r. record { c_name = den; cur_clients = []; msgs = []; expire = 5 };
  next_client = 2;
  next_room = 2;
  cur_clients = two;
  c_rooms = (den, 0) ∷ [];
  now = 9;
}

abbrev programs : Tid → Program
programs (call n) = finish (ok [])
programs (loop r) = on_signal r expiry

abbrev system : System
system = record {
  memory = quiet;
  programs = programs;
  mutexes = λ c. unlocked;
  next_call = 0;
  crashed = false;
}

b_known : get_client (codes "b") two ≡ ok 1
unfolding get_client lookup text_eq
b_known = refl

leave_nowhere_crashes_example :
    (is_crashed (
        run
          (arrive (leaving (codes "b"))
            ∷ go (call 0)
            ∷ go (call 0)
            ∷ go (call 0)
            ∷ go (call 0)
            ∷ [])
          system)
      ≡ true)
    × (run
          (arrive (leaving (codes "b"))
            ∷ go (call 0)
            ∷ go (call 0)
            ∷ go (call 0)
            ∷ go (call 0)
            ∷ tick 1
            ∷ [])
          system
        ≡ none)
leave_nowhere_crashes_example =
    leave_nowhere_crashes system (codes "b") 1 (tick 1) refl b_known refl refl

den_known : lookup den quiet.c_rooms ≡ some 0
unfolding lookup text_eq
den_known = refl

-- The timer of the second room takes the first one's name.
expiry_takes_name_example :
    found_room den (run (go (loop 1) ∷ go (loop 1) ∷ go (loop 1) ∷ go (loop 1) ∷ []) system)
    ≡ some (if text_eq den den then none else lookup den quiet.c_rooms)
expiry_takes_name_example = expiry_takes_name system 1 0 den refl refl refl refl den_known

-- The first room with one client in it.
abbrev talking : Memory
talking = record quiet {
  rooms = λ r. record { c_name = den; cur_clients = 1 ∷ []; msgs = []; expire = 5 };
}

signal_comes_to_example :
    let out = settle (on_signal 0 (join 2)) talking in Signalled 0 (join 2) talking out.0 out.1
signal_comes_to_example = signal_comes_to 0 (join 2) talking

none_there : count 1 [] ≡ 0
unfolding count
none_there = refl

visit_settles_example :
    let n = (settle (on_signal 0 (leave 1)) (settle (on_signal 0 (join 1)) quiet).0).0 in
    ((n.rooms 0).cur_clients ≡ [])
    × ((n.clients 1).c_room ≡ none)
    × ((n.rooms 0).msgs ≡ enters 1 quiet ∷ leaves 1 quiet ∷ [])
visit_settles_example = visit_settles 0 1 quiet none_there

-- The room hears a text, and a RecMsg call of its client waits for one.
abbrev busy : Tid → Program
busy (call n) = take 1 (λ msg. finish (ok msg))
busy (loop r) = on_signal r (incoming den)

abbrev heard : System
heard = record {
  memory = talking;
  programs = busy;
  mutexes = λ c. unlocked;
  next_call = 1;
  crashed = false;
}

abbrev turns : List Event
turns = go (loop 0) ∷ meet (loop 0) (call 0) ∷ []

abbrev shared : System
shared = record heard {
  memory = remembered 0 den talking;
  programs = λ u.
      if same_tid u (loop 0)
      then listen 0
      else if same_tid u (call 0)
      then finish (ok den)
      else if same_tid u (loop 0)
      then offer_all (1 ∷ []) den (listen 0)
      else busy u;
}

heard_runs : run turns heard ≡ some shared
unfolding run step happen advance broadcast offer_all on_signal
heard_runs = refl

undisturbed_example :
    Signalled 0 (incoming den) talking (remembered 0 den talking) (handed (loop 0) turns heard)
undisturbed_example = undisturbed turns heard shared 0 0 (incoming den) refl refl heard_runs refl

-- A server that knows the client until it quits.
abbrev forgetful : World Bool
forgetful = record {
  call = λ d known. false;
  receive = λ known. if known then got (codes "hi") known else broken (codes "gone") known;
  typed = λ n. some (codes "!quit\n");
}

abbrev fresh : Session Bool
fresh = record {
  shown = [];
  server = true;
  lines_read = 0;
  user_in_loops = true;
  user_out_loops = true;
  counter = 1;
  status = running;
}

quit_races_example :
    ((wait (user_in forgetful fresh)).status ≡ exited 0)
    × ((wait (user_in forgetful fresh)).shown ≡ mess_disc ∷ [])
    × ((user_out forgetful (user_in forgetful fresh)).status ≡ panicked)
quit_races_example =
    quit_races forgetful fresh (codes "\n") (codes "gone") false refl refl refl refl refl
