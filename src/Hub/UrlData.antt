-- ===== src/Hub/UrlData.antt =====
-- hubserv/src/state/url_data.rs: the clients of one URL. Time is an argument, in seconds; it is not
-- before 1970, so that the `i64` of the source is a natural number.
use verse_entrance_server.Base.{
  ℕ, ◌+◌, Bool, not, Option, none, some, List, [], ◌∷◌, ◌++◌, ltb, leb, ◌==◌, if◌then◌else◌,
  unwrap_or, usize_max, dec_u64, retain, take, Bytes, bytes_eq,
}
use verse_entrance_server.Proto.Swarm.{
  tracker, RoutingInfo, Relation, routing_info, routing_infos, absent, count, default_info,
  has_session_id, infos, of_infos,
}
use verse_entrance_server.Hub.Client.{Client, Cells, get_routing_info}

abbrev pub update_interval : ℕ
update_interval = 5

abbrev pub routing_info_max : ℕ
routing_info_max = 1000

pub record UrlData : Type 0 where
  pub clients : List Client
  pub client_count : ℕ
  pub routing_info_updated : ℕ
  pub listing : RoutingInfo

-- A tracker's routing info with the given relations.
abbrev pub tracker_info : List RoutingInfo → RoutingInfo
tracker_info vs =
    routing_info (record default_info { node_type = tracker }) (routing_infos (of_infos vs))

unfoldable pub create_default_routing_info : RoutingInfo
create_default_routing_info = tracker_info []

-- `UrlData::new`
unfoldable pub new_url_data : Client → UrlData
unfolding create_default_routing_info
new_url_data cd = record {
  clients = cd ∷ [];
  client_count = 1;
  routing_info_updated = 0;
  listing = create_default_routing_info;
}

-- The infos of those clients that have sent one.
unfoldable pub relation_of : Cells → List Client → List RoutingInfo
unfolding get_routing_info
relation_of cells [] = []
relation_of cells (cd ∷ cds) = elim (get_routing_info cells cd) [
  | none ↦ relation_of cells cds
  | some ri ↦ ri ∷ relation_of cells cds
]

unfoldable pub update_routing_info : Cells → UrlData → UrlData
unfolding relation_of
update_routing_info cells ud = record ud {
  listing = tracker_info (relation_of cells (take routing_info_max ud.clients));
}

unfoldable pub update_routing_info_if_needed : ℕ → Cells → UrlData → UrlData
unfolding update_routing_info
update_routing_info_if_needed now cells ud =
    if ltb now (ud.routing_info_updated + update_interval)
    then ud
    else update_routing_info cells (record ud { routing_info_updated = now })

unfoldable pub is_empty : UrlData → Bool
is_empty ud = ud.client_count == 0

-- The limit on a counter: `unwrap_or(usize::MAX)`.
abbrev pub limit : Option ℕ → ℕ
limit max_connections = unwrap_or max_connections usize_max

-- `none` is the answer `false`. With no other thread between, the compare-exchange succeeds at the
-- first try.
unfoldable pub url_add_connection : UrlData → Client → Option ℕ → Option UrlData
url_add_connection ud cd max_by_url =
    if leb (limit max_by_url) ud.client_count
    then none
    else some (record ud { client_count = ud.client_count + 1; clients = ud.clients ++ cd ∷ [] })

abbrev pub is_other : Bytes → Client → Bool
is_other sid c = not (bytes_eq c.session_id sid)

abbrev pub drop_session : Bytes → Relation → Relation
drop_session sid absent = absent
drop_session sid (count n) = count n
drop_session sid (routing_infos vs) =
    routing_infos (of_infos (retain (λ v. not (has_session_id sid v)) (infos vs)))

abbrev pub drop_info : Bytes → RoutingInfo → RoutingInfo
drop_info sid (routing_info i r) = routing_info i (drop_session sid r)

unfoldable pub url_remove_connection : UrlData → Bytes → UrlData
unfolding has_session_id
url_remove_connection ud sid = record ud {
  client_count = dec_u64 ud.client_count;
  clients = retain (is_other sid) ud.clients;
  listing = drop_info sid ud.listing;
}
