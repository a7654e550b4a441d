-- ===== src/Router/Clients/Merged.antt =====
-- What `ExtractClients` returns: one client for each key that comes up, merged from all the objects
-- that have the key.
use homelink_monitor.Base.{
  ◌≡◌, refl, sym, ap, ◌∙◌, true, false, not, ◌&&◌, ◌||◌, Option, some, List, [], ◌∷◌, map, Text,
  text_eq, text_eq_iff, text_eq_refl, is_empty, All, Bool-cases, subst, Option-cases, inl, inr,
  arith, All-append,
}
use homelink_monitor.Domain.{RouterTrafficClient}
use homelink_monitor.Router.Json.{Fields, collect_objects}
use homelink_monitor.Router.Clients.{
  Clients, EndpointResponse, has_identity, has_traffic, client_key, merge_client, client_at,
  add_client, add_clients, object_to_client, read_client, clients_of, response_clients,
  extract_clients,
}
use homelink_monitor.Router.Clients.Keyed.{
  with_key, merge_all, keys, has_key, IsDistinct, IsKeyed, IsReported, has_key-put_client,
  add_clients-IsKeyed, client_at-add_clients,
}

module _ {F : Type 0} where
  -- The entry is what the map holds at its key.
  abbrev IsFound : Clients F → Text × RouterTrafficClient F → Type 0
  IsFound m (k, c) = client_at k m ≡ c

  IsFound-cons :
      (k : Text) (c : RouterTrafficClient F) (m l : Clients F)
      → has_key k (keys l) ≡ false
      → All (IsFound m) l
      → All (IsFound ((k, c) ∷ m)) l
  unfolding client_at
  IsFound-cons k c m [] absent h = tt
  IsFound-cons k c m ((j, d) ∷ l) absent (found, h) =
      (ground (arith, text_eq_iff k j, text_eq_iff j k), IsFound-cons k c m l (ground arith) h)

  IsKeyed-IsFound : (m : Clients F) → IsKeyed m → All (IsFound m) m
  unfolding client_at
  IsKeyed-IsFound [] h = tt
  IsKeyed-IsFound ((k, c) ∷ m) (e, absent, h) =
      (rw (text_eq_refl k) refl, IsFound-cons k c m m absent (IsKeyed-IsFound m h))

  -- The clients of the map have the keys of the map.
  map-client_key :
      (m : Clients F) → IsKeyed m → map (λ c. client_key c) (map (λ entry. entry.1) m) ≡ keys m
  map-client_key [] h = refl
  map-client_key ((k, c) ∷ m) (e, absent, h) = ground (arith, map-client_key m h)

  keys-IsDistinct : (m : Clients F) → IsKeyed m → IsDistinct (keys m)
  keys-IsDistinct [] h = tt
  keys-IsDistinct ((k, c) ∷ m) (e, absent, h) = (absent, keys-IsDistinct m h)

  pub has_key-add_client :
      (k : Text) (c : RouterTrafficClient F) (m : Clients F)
      → has_key k (keys (add_client c m))
        ≡ ((not (is_empty (client_key c)) && text_eq (client_key c) k) || has_key k (keys m))
  unfolding add_client
  has_key-add_client k c m =
      ground
        (arith, has_key-put_client (client_key c) k (merge_client (client_at (client_key c) m) c) m)

  has_key-add_clients :
      (k : Text) (cs : List (RouterTrafficClient F)) (m : Clients F)
      → has_key k (keys m) ≡ true
      → has_key k (keys (add_clients cs m)) ≡ true
  unfolding add_clients
  has_key-add_clients k [] m h = h
  has_key-add_clients k (c ∷ cs) m h =
      has_key-add_clients k cs (add_client c m) (ground (arith, has_key-add_client k c m))

  -- Each client that is added leaves its key.
  add_clients_complete :
      (cs : List (RouterTrafficClient F)) (m : Clients F)
      → All IsReported cs
      → All (λ c. has_key (client_key c) (keys (add_clients cs m)) ≡ true) cs
  unfolding add_clients
  add_clients_complete [] m h = tt
  add_clients_complete (c ∷ cs) m (reported, h) = (
    has_key-add_clients (client_key c) cs (add_client c m)
        (ground (arith, has_key-add_client (client_key c) c m, text_eq_refl (client_key c))),
    add_clients_complete cs (add_client c m) h,
  )

  merged-IsReported :
      (c : RouterTrafficClient F) → (has_identity c && has_traffic c) ≡ true → IsReported c
  unfolding client_key
  merged-IsReported c h = ground arith

  -- A client of the result, next to all that were reported.
  abbrev pub IsMerged : List (RouterTrafficClient F) → RouterTrafficClient F → Type 0
  IsMerged cs c = IsReported c × (c ≡ merge_all (with_key (client_key c) cs))

  entries-IsMerged :
      (cs : List (RouterTrafficClient F)) (m l : Clients F)
      → m ≡ add_clients cs []
      → All (IsFound m) l
      → IsKeyed l
      → All (IsMerged cs) (map (λ entry. entry.1) l)
  unfolding client_at
  entries-IsMerged cs m [] e found h = tt
  entries-IsMerged cs m ((k, c) ∷ l) e (here, found) ((some_key, same_key, traffic), absent, h) = (
    (
      (ap is_empty same_key ∙ some_key, traffic),
      sym here
          ∙ ap (λ m'. client_at k m') e
          ∙ client_at-add_clients k cs [] some_key
          ∙ ap (λ j. merge_all (with_key j cs)) (sym same_key),
    ),
    entries-IsMerged cs m l e found h,
  )

module _ {F : Type 0} (parse_float : Text → Option F) where
  object_to_client-IsReported :
      (m : Fields F) (c : RouterTrafficClient F)
      → object_to_client parse_float m ≡ some c
      → IsReported c
  unfolding object_to_client
  object_to_client-IsReported m c e =
      elim (Bool-cases
        (has_identity (read_client parse_float m) && has_traffic (read_client parse_float m))) [
          | inl client ↦
              let same : read_client parse_float m ≡ c = cc (rw client at e) in
              subst IsReported same (merged-IsReported (read_client parse_float m) client)
          | inr other ↦ cc (rw other at e)
        ]

  clients_of-IsReported :
      (objects : List (Fields F)) → All IsReported (clients_of parse_float objects)
  unfolding clients_of
  clients_of-IsReported [] = tt
  clients_of-IsReported (m ∷ objects) = elim (Option-cases (object_to_client parse_float m)) [
    | inl other ↦ rw (other, clients_of) (clients_of-IsReported objects)
    | inr (c, e) ↦
        rw (e, clients_of) (object_to_client-IsReported m c e, clients_of-IsReported objects)
  ]

  pub response_clients-IsReported :
      (responses : List (EndpointResponse F))
      → All IsReported (response_clients parse_float responses)
  unfolding response_clients
  response_clients-IsReported [] = tt
  response_clients-IsReported (r ∷ responses) =
      All-append IsReported (clients_of parse_float (collect_objects r.payload))
        (response_clients parse_float responses) (clients_of-IsReported (collect_objects r.payload))
        (response_clients-IsReported responses)

-- Whatever the responses hold, `ExtractClients` returns one client for each key (MAC address, or IP
-- address, or host name) of the clients reported in them, and no other: each has a key and reports
-- traffic, its fields are the first values that the clients of its key have, no key stands twice,
-- and the key of every reported client stands.
pub extract_clients_lem :
    {F : Type 0} (parse_float : Text → Option F) (responses : List (EndpointResponse F))
    → All
        (IsMerged (response_clients parse_float responses))
        (extract_clients parse_float responses)
      × IsDistinct (map (λ c. client_key c) (extract_clients parse_float responses))
      × All
          (λ c.
            has_key (client_key c) (map (λ d. client_key d) (extract_clients parse_float responses))
            ≡ true)
          (response_clients parse_float responses)
unfolding extract_clients
extract_clients_lem parse_float responses =
    let reported = response_clients-IsReported parse_float responses in
    let cs = response_clients parse_float responses in
    let keyed : IsKeyed (add_clients cs []) = add_clients-IsKeyed cs [] reported tt in
    (
      entries-IsMerged cs (add_clients cs []) (add_clients cs []) refl
          (IsKeyed-IsFound (add_clients cs []) keyed) keyed,
      rw (map-client_key (add_clients cs []) keyed) (keys-IsDistinct (add_clients cs []) keyed),
      rw (map-client_key (add_clients cs []) keyed) (add_clients_complete cs [] reported),
    )
