-- ===== src/Tests/Connections.antt =====
-- Connections of a small server: at most three, and two for each URL.
use verse_entrance_server.Base.{
  ◌+◌, ◌≡◌, refl, ◌↔◌, Bytes, true, false, none, some, List, [], ◌∷◌, arith, length, codes,
  bytes_eq, lookup, insert, remove,
}
use verse_entrance_server.Hub.Client.{Client}
use verse_entrance_server.Hub.UrlData.{
  url_add_connection, new_url_data, url_remove_connection, is_empty, create_default_routing_info,
}
use verse_entrance_server.Hub.State.{
  enter_url, leave_url, Config, State, new_state, get_connection, is_new_connection_available,
  add_connection, remove_connection,
}
use verse_entrance_server.Hub.State.Invariant.{Inv, IsWordSized}
use verse_entrance_server.Hub.State.Registry.{registry, serve_all, run_refines}
use verse_entrance_server.Hub.State.Registry
use verse_entrance_server.Hub.State.Admission.{add_connection-available}
use verse_entrance_server.Hub.State.Runs.{
  step, Call, enters, leaves, run, enter_session, run-new_state-Inv,
}
use verse_entrance_server.Hub.State.Races.{overlapping_enters, overlapping_enters-counts}
use verse_entrance_server.Hub.Router.{
  ok, answer, closed, Callback, conclude, enter, set_up, admit, check_worker, settle,
  on_ice_connection_state_change,
}
use verse_entrance_server.Hub.Types.{RequestPayload}
use verse_entrance_server.Hub.Router.SetUp.{Negotiation, setup_pc, with_timeout}
use verse_entrance_server.Hub.Router.Answers.{Accepted, enter-ok_iff}
use verse_entrance_server.Hub.Router.Admitted.{
  enter-Inv, IsSettled, conclude-IsSettled, on_ice_connection_state_change_late,
}

abbrev pub config : Config
config = record {
  max_connections = some 3;
  max_connections_by_url = some 2;
  max_routing_results = 1;
}

pub config-IsWordSized : IsWordSized config
config-IsWordSized = record { total = omega arith; by_url = omega arith }

abbrev pub ann : Client
ann = record { address = 1; session_id = codes "ann"; pc = 11; url = codes "https://a.example" }

abbrev pub bob : Client
bob = record { address = 2; session_id = codes "bob"; pc = 12; url = codes "https://a.example" }

abbrev cat : Client
cat = record { address = 3; session_id = codes "cat"; pc = 13; url = codes "https://a.example" }

abbrev dan : Client
dan = record { address = 4; session_id = codes "dan"; pc = 14; url = codes "https://d.example" }

-- Ann on another connection.
abbrev ann_again : Client
ann_again = record {
  address = 5;
  session_id = codes "ann";
  pc = 15;
  url = codes "https://a.example";
}

abbrev pub calls : List Call
calls = enters ann ∷ enters bob ∷ []

abbrev pub one : State
one = run (new_state config) (enters ann ∷ [])

abbrev two : State
two = run (new_state config) calls

pub one-Inv : Inv one
one-Inv = run-new_state-Inv config (enters ann ∷ []) config-IsWordSized

two-Inv : Inv two
two-Inv = run-new_state-Inv config calls config-IsWordSized

again_accepted : (enter_session two ann_again).1 ≡ true
unfolding lookup insert remove bytes_eq add_connection remove_connection run step enter_session
    new_state enter_url url_add_connection new_url_data leave_url url_remove_connection is_empty
    overlapping_enters create_default_routing_info
again_accepted = refl

empty-Inv : Inv (new_state config)
unfolding lookup insert remove bytes_eq add_connection remove_connection run step enter_session
    new_state enter_url url_add_connection new_url_data leave_url url_remove_connection is_empty
    overlapping_enters create_default_routing_info
empty-Inv = run-new_state-Inv config [] config-IsWordSized

first_accepted : (overlapping_enters (new_state config) ann ann_again).1 ≡ true
unfolding lookup insert remove bytes_eq add_connection remove_connection run step enter_session
    new_state enter_url url_add_connection new_url_data leave_url url_remove_connection is_empty
    overlapping_enters create_default_routing_info
first_accepted = refl

second_accepted : (overlapping_enters (new_state config) ann ann_again).2 ≡ true
unfolding lookup insert remove bytes_eq add_connection remove_connection run step enter_session
    new_state enter_url url_add_connection new_url_data leave_url url_remove_connection is_empty
    overlapping_enters create_default_routing_info
second_accepted = refl

pub ann_connected : get_connection one ann.session_id ≡ some ann
unfolding lookup insert remove bytes_eq add_connection remove_connection run step enter_session
    new_state enter_url url_add_connection new_url_data leave_url url_remove_connection is_empty
    overlapping_enters create_default_routing_info get_connection
ann_connected = refl

run-new_state-Inv_example :
    Inv (run (new_state config) (enters ann ∷ enters bob ∷ leaves (codes "ann") ∷ []))
run-new_state-Inv_example =
    run-new_state-Inv config (enters ann ∷ enters bob ∷ leaves (codes "ann") ∷ [])
      config-IsWordSized

run_refines_example :
    (registry (run (new_state config) calls) ≡ serve_all config [] calls)
    × ((enter_session (run (new_state config) calls) cat).1
        ≡ (Registry.enter config (serve_all config [] calls) cat).1)
run_refines_example = run_refines config calls cat config-IsWordSized

add_connection-available_example :
    (add_connection two cat).1 ≡ is_new_connection_available two cat.url
add_connection-available_example = add_connection-available two cat

enter-Inv_example :
    Inv
      (enter
        (λ url. 0)
        none
        (codes "hub")
        (some (
          codes "dan",
          record { url = codes "https://d.example"; body = codes "sdp"; raw_url = [] },
        ))
        two
        (some (4, 14))
        (answer (codes "sdp"))
        two).state
enter-Inv_example =
    enter-Inv (λ url. 0) none (codes "hub")
      (some
        (codes "dan", record { url = codes "https://d.example"; body = codes "sdp"; raw_url = [] }))
      two (some (4, 14)) (answer (codes "sdp")) two two-Inv

conclude-IsSettled_example : IsSettled (conclude two cat (answer (codes "sdp"))) cat
conclude-IsSettled_example = conclude-IsSettled two cat (answer (codes "sdp"))

abbrev negotiation : Negotiation
negotiation = record {
  set_remote_description = true;
  create_answer = some (codes "sdp");
  set_local_description = λ a. true;
  local_description = λ a. some a;
}

abbrev dan_verified : Bytes × RequestPayload
dan_verified =
    (codes "dan", record { url = codes "https://d.example"; body = codes "sdp"; raw_url = [] })

enter-ok_iff_example :
    ((enter
        (λ url. 0)
        none
        (codes "hub")
        (some dan_verified)
        two
        (some (4, 14))
        (with_timeout true (setup_pc negotiation))
        two).response
      ≡ ok (codes "sdp"))
    ↔ Accepted
        (λ url. 0)
        none
        (codes "hub")
        (some dan_verified)
        two
        (some (4, 14))
        true
        negotiation
        two
        (codes "sdp")
enter-ok_iff_example =
    enter-ok_iff (λ url. 0) none (codes "hub") (some dan_verified) two (some (4, 14)) true
      negotiation two (codes "sdp")

-- Both sides hold.
dan_enters :
    (enter
      (λ url. 0)
      none
      (codes "hub")
      (some dan_verified)
      two
      (some (4, 14))
      (with_timeout true (setup_pc negotiation))
      two).response
    ≡ ok (codes "sdp")
unfolding lookup insert remove bytes_eq add_connection remove_connection run step enter_session
    new_state enter_url url_add_connection new_url_data leave_url url_remove_connection is_empty
    create_default_routing_info enter set_up admit check_worker conclude settle with_timeout
    setup_pc is_new_connection_available
dan_enters = refl

abbrev callback : Callback
callback = record {
  session_id = codes "ann";
  url = codes "https://a.example";
  raw_url = codes "https://a.example/";
  is_access_log_sended = false;
}

on_ice_connection_state_change_late_example :
    (get_connection (enter_session two ann_again).0 (codes "ann") ≡ some ann_again)
    × (get_connection
          (on_ice_connection_state_change (enter_session two ann_again).0 (codes "ann") closed)
          (codes "ann")
        ≡ none)
on_ice_connection_state_change_late_example =
    on_ice_connection_state_change_late two ann ann_again refl again_accepted

overlapping_enters-counts_example :
    let t =
      remove_connection (overlapping_enters (new_state config) ann ann_again).0 (codes "ann") in
    t.client_count ≡ length t.connection_map + 1
overlapping_enters-counts_example =
    overlapping_enters-counts (new_state config) ann ann_again empty-Inv refl first_accepted
      second_accepted
