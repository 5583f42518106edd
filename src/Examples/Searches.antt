-- ===== src/Examples/Searches.antt =====
-- A scan of two addresses at concrete inputs.
use atomic_websocket.Base.{
  ◌+◌, ◌≤◌, List, Text, text_eq, codes, none, some, map, length, all, ◌≡◌, refl, true, false, [],
  ◌∷◌, arith,
}
use atomic_websocket.Runtime.Table.{Table}
use atomic_websocket.Runtime.Lists.{list_table}
use atomic_websocket.Scan.{
  ConnectionState, ScanManager, opened, get_connected_ip, is_connected, start_connection,
  end_connection, task_begin, task_end,
}
use atomic_websocket.Address.{parse_port}
use atomic_websocket.Scan.{is_connecting_allowed, get_scannable_ips, check_connection, timed_out}
use atomic_websocket.Scan.Subnet.{scan_ip, range, with_concurrency, split_dot}
use atomic_websocket.Scan.Subnet.Laws.{Distinct, All, with_concurrency_lem}
use atomic_websocket.Scan.Tasks.{
  World, Step, Steps, stop, next, list, spawn, start, finish, look, idle, mem, expire, scan_list,
  spawned,
}
use atomic_websocket.Scan.Tasks.Bounds.{FoundIn, Steps-idle}
use atomic_websocket.Scan.Tasks.Stopped.{count, Steps-stopped}
use atomic_websocket.Scan.Tasks.Lost.{second_dial_loses}
use atomic_websocket.Scan.Handover.{Handover, get_connected_ip-Handover}
use atomic_websocket.Examples.Values.{host, peer, port}

abbrev states : Table ConnectionState
states = list_table ConnectionState

abbrev fresh : ScanManager states
fresh = record {
  scan_ips = host ∷ peer ∷ [];
  connection_states = states.empty;
  permits = 50;
  stop_flag = false;
}

abbrev searched : ScanManager states
searched = task_end states host (opened 9) (task_begin states host fresh).1

get_connected_ip-Handover_example :
    Handover states searched.connection_states (get_connected_ip states searched.connection_states)
get_connected_ip-Handover_example = get_connected_ip-Handover states searched.connection_states

-- A scan with two permits.
abbrev first_ip : Text
first_ip = codes "ws://10.0.0.1:16250"

abbrev scan_of_two : ScanManager states
scan_of_two = record {
  scan_ips = map (scan_ip (codes "10") (codes "0") (codes "0") port) (range 1 254);
  connection_states = states.empty;
  permits = 2;
  stop_flag = false;
}

with_concurrency_lem_example :
    (s : ScanManager states) × (with_concurrency states (codes "10.0.0.9") port 2 ≡ some s)
    × (length s.scan_ips ≡ 254)
    × Distinct s.scan_ips
    × All (λ u. parse_port u ≡ port) s.scan_ips
    × (s.permits ≡ 2)
with_concurrency_lem_example =
    with_concurrency_lem states (codes "10") (codes "0") (codes "0") (codes "9") port 2
      (omega arith) (omega arith) (omega arith) (refl, refl)

abbrev second_ip : Text
second_ip = codes "ws://10.0.0.2:16250"

abbrev first_dial : ScanManager states
first_dial = (task_begin states first_ip scan_of_two).1

abbrev second_dial : ScanManager states
second_dial = (task_begin states second_ip first_dial).1

abbrev world : ScanManager states → List Text → List Text → List Text → World states
world s l w d = record { manager = s; listed = l; waiting = w; dialing = d; found = none }

-- What the scan has still to go through behind the first two addresses.
abbrev others : List Text
others = map (scan_ip (codes "10") (codes "0") (codes "0") port) (range 3 252)

abbrev listing : World states
listing = world scan_of_two (first_ip ∷ second_ip ∷ others) [] []

abbrev dialing_two : World states
dialing_two = world second_dial others [] (second_ip ∷ first_ip ∷ [])

to_listing : Step states (idle states scan_of_two) listing
unfolding scan_list scan_ip get_scannable_ips
to_listing = list scan_of_two [] []

-- Two tasks get the two permits.
to_dialing_two : Steps states (idle states scan_of_two) dialing_two
unfolding spawned is_connecting_allowed is_connected task_begin
to_dialing_two = next (idle states scan_of_two) listing dialing_two to_listing (
    next listing (world scan_of_two (second_ip ∷ others) (first_ip ∷ []) []) dialing_two
      (spawn scan_of_two (second_ip ∷ others) [] [] first_ip)
      (next _ (world scan_of_two others (first_ip ∷ second_ip ∷ []) []) dialing_two
        (spawn scan_of_two others (first_ip ∷ []) [] second_ip)
        (next _ (world first_dial others (second_ip ∷ []) (first_ip ∷ [])) dialing_two
          (start scan_of_two others [] (second_ip ∷ []) [] first_ip none (omega arith))
          (next _ dialing_two dialing_two
            (start first_dial others [] [] (first_ip ∷ []) second_ip none (omega arith))
            (stop dialing_two)))))

Steps-idle_example :
    (dialing_two.manager.permits + length dialing_two.dialing ≡ 2)
    × (all (λ j. mem j scan_of_two.scan_ips) dialing_two.dialing ≡ true)
    × FoundIn scan_of_two.scan_ips dialing_two.found
unfolding with_concurrency split_dot
Steps-idle_example =
    Steps-idle states (codes "10.0.0.9") port 2 scan_of_two dialing_two refl to_dialing_two

-- Two tasks have begun for one address, the first has opened a stream, and the second fails.
abbrev opened_once : ScanManager states
opened_once = task_end states first_ip (opened 9) (task_begin states first_ip first_dial).1

abbrev lost_scan : ScanManager states
lost_scan = task_end states first_ip timed_out opened_once

-- A task that still waits gets a permit, and the scan looks.
to_nothing : Steps states (world lost_scan [] (second_ip ∷ []) []) (world lost_scan [] [] [])
unfolding task_begin task_end get_connected_ip check_connection end_connection start_connection
    text_eq
to_nothing =
    next _ (world lost_scan [] [] []) (world lost_scan [] [] [])
      (start lost_scan [] [] [] [] second_ip none (omega arith))
      (next _ (world lost_scan [] [] []) (world lost_scan [] [] []) (look lost_scan [] [])
        (stop (world lost_scan [] [] [])))

second_dial_loses_example :
    (is_connected states opened_once.connection_states ≡ true)
    × ((world lost_scan [] [] []).found ≡ none)
    × ((world lost_scan [] [] []).dialing ≡ [])
    × (lost_scan.stop_flag ≡ true)
    × (is_connected states lost_scan.connection_states ≡ false)
unfolding is_connecting_allowed is_connected check_connection
second_dial_loses_example =
    second_dial_loses states scan_of_two first_ip 9 timed_out [] (second_ip ∷ [])
      (world lost_scan [] [] []) refl refl to_nothing

-- The time of a scan is over while two dials are under way and a task waits: a dial ends, and the
-- task that then gets its permit does not dial.
abbrev expired : ScanManager states
expired = expire states second_dial

abbrev one_left : ScanManager states
one_left = task_end states first_ip timed_out expired

abbrev time_over : World states
time_over = world expired others (first_ip ∷ []) (second_ip ∷ first_ip ∷ [])

abbrev one_dialing : World states
one_dialing = world one_left others [] (second_ip ∷ [])

to_one_dialing : Steps states time_over one_dialing
unfolding expire task_begin task_end check_connection
to_one_dialing =
    next time_over (world one_left others (first_ip ∷ []) (second_ip ∷ [])) one_dialing
      (finish expired others (first_ip ∷ []) (second_ip ∷ []) [] first_ip timed_out none)
      (next _ one_dialing one_dialing
        (start one_left others [] [] (second_ip ∷ []) first_ip none (omega arith))
        (stop one_dialing))

Steps-stopped_example :
    (one_dialing.manager.stop_flag ≡ true)
    × ((ip : Text) → count ip one_dialing.waiting ≤ count ip time_over.waiting)
    × ((ip : Text) → count ip one_dialing.dialing ≤ count ip time_over.dialing)
unfolding expire
Steps-stopped_example = Steps-stopped states time_over one_dialing refl to_one_dialing
