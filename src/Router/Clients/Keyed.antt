-- ===== src/Router/Clients/Keyed.antt =====
-- The map of `ExtractClients`: its entries, and what each key holds.
use homelink_monitor.Base.{
  ◌≡◌, refl, sym, ap, ◌∙◌, Bool, true, false, ◌||◌, List, [], ◌∷◌, map, Text, text_eq, text_eq_iff,
  text_eq_sound, is_empty, if◌then◌else◌, any, select, All, Bool-cases, inl, inr, arith, ◌⊎◌,
}
use homelink_monitor.Domain.{RouterTrafficClient}
use homelink_monitor.Router.Clients.{
  Clients, empty_client, merge_client, has_traffic, client_key, client_at, put_client, add_client,
  add_clients,
}

-- Whether the key stands in the list.
abbrev pub has_key : Text → List Text → Bool
has_key k ks = any (λ j. text_eq j k) ks

-- No text stands twice.
abbrev pub IsDistinct : List Text → Type 0
IsDistinct [] = Unit
IsDistinct (k ∷ ks) = (has_key k ks ≡ false) × IsDistinct ks

module _ {F : Type 0} where
  client_at-put_client :
      (key k : Text) (c : RouterTrafficClient F) (m : Clients F)
      → client_at k (put_client key c m) ≡ (if text_eq key k then c else client_at k m)
  unfolding client_at put_client
  client_at-put_client key k c [] = ground arith
  client_at-put_client key k c ((j, d) ∷ m) =
      ground (
        arith,
        text_eq_iff j key,
        text_eq_iff j k,
        text_eq_iff key k,
        client_at-put_client key k c m,
      )

  -- The clients that have the key.
  abbrev pub with_key : Text → List (RouterTrafficClient F) → List (RouterTrafficClient F)
  with_key key clients = select (λ c. text_eq (client_key c) key) clients

  abbrev pub merge_from :
      RouterTrafficClient F → List (RouterTrafficClient F) → RouterTrafficClient F
  merge_from merged [] = merged
  merge_from merged (c ∷ clients) = merge_from (merge_client merged c) clients

  -- The first value of each field, in the order of the clients.
  abbrev pub merge_all : List (RouterTrafficClient F) → RouterTrafficClient F
  merge_all clients = merge_from empty_client clients

  client_at-add_client :
      (k : Text) (c : RouterTrafficClient F) (m : Clients F)
      → is_empty k ≡ false
      → client_at k (add_client c m)
        ≡ (if text_eq (client_key c) k then merge_client (client_at k m) c else client_at k m)
  unfolding add_client
  client_at-add_client k c m some_key = ground (
    arith,
    text_eq_iff (client_key c) k,
    client_at-put_client (client_key c) k (merge_client (client_at (client_key c) m) c) m,
  )

  pub client_at-add_clients :
      (k : Text) (cs : List (RouterTrafficClient F)) (m : Clients F)
      → is_empty k ≡ false
      → client_at k (add_clients cs m) ≡ merge_from (client_at k m) (with_key k cs)
  unfolding add_clients
  client_at-add_clients k [] m some_key = refl
  client_at-add_clients k (c ∷ cs) m some_key = elim (Bool-cases (text_eq (client_key c) k)) [
    | inl hit ↦
        client_at-add_clients k cs (add_client c m) some_key
        ∙ rw (client_at-add_client k c m some_key, hit) refl
    | inr miss ↦
        client_at-add_clients k cs (add_client c m) some_key
        ∙ rw (client_at-add_client k c m some_key, miss) refl
  ]

  -- Of each entry: the client has the key, and reports traffic.
  abbrev pub IsEntry : Text → RouterTrafficClient F → Type 0
  IsEntry k c = (is_empty k ≡ false) × (client_key c ≡ k) × (has_traffic c ≡ true)

  has_traffic-merge_client :
      (a b : RouterTrafficClient F) → has_traffic b ≡ true → has_traffic (merge_client a b) ≡ true
  unfolding merge_client
  has_traffic-merge_client a b h = ground arith

  client_key-merge_empty :
      (b : RouterTrafficClient F) → client_key (merge_client empty_client b) ≡ client_key b
  unfolding merge_client client_key
  client_key-merge_empty b = refl

  client_key-merge_client :
      (a b : RouterTrafficClient F)
      → client_key a ≡ client_key b
      → client_key (merge_client a b) ≡ client_key b
  unfolding merge_client client_key
  client_key-merge_client a b e = ground arith

  abbrev pub keys : Clients F → List Text
  keys m = map (λ entry. entry.0) m

  abbrev pub IsKeyed : Clients F → Type 0
  IsKeyed [] = Unit
  IsKeyed ((k, c) ∷ m) = IsEntry k c × (has_key k (keys m) ≡ false) × IsKeyed m

  pub has_key-put_client :
      (key k : Text) (c : RouterTrafficClient F) (m : Clients F)
      → has_key k (keys (put_client key c m)) ≡ (text_eq key k || has_key k (keys m))
  unfolding put_client
  has_key-put_client key k c [] = ground arith
  has_key-put_client key k c ((j, d) ∷ m) =
      ground
        (arith, text_eq_iff j key, text_eq_iff j k, text_eq_iff key k, has_key-put_client key k c m)

  put_client-IsKeyed :
      (key : Text) (c : RouterTrafficClient F) (m : Clients F)
      → IsEntry key c
      → IsKeyed m
      → IsKeyed (put_client key c m)
  unfolding put_client
  put_client-IsKeyed key c [] e h = (e, refl, tt)
  put_client-IsKeyed key c ((j, d) ∷ m) e (old, new_key, h) = elim (Bool-cases (text_eq j key)) [
    | inl hit ↦
        rw hit (e, ap (λ k. has_key k (keys m)) (sym (text_eq_sound j key hit)) ∙ new_key, h)
    | inr miss ↦ rw miss (
      old,
      ground (arith, has_key-put_client key j c m, text_eq_iff j key, text_eq_iff key j),
      put_client-IsKeyed key c m e h,
    )
  ]

  client_at-cases :
      (k : Text) (m : Clients F)
      → IsKeyed m
      → (client_at k m ≡ empty_client) ⊎ (client_key (client_at k m) ≡ k)
  unfolding client_at
  client_at-cases k [] h = inl refl
  client_at-cases k ((j, d) ∷ m) (e, new_key, h) = elim (Bool-cases (text_eq j k)) [
    | inl hit ↦ rw hit (inr (e.1 ∙ text_eq_sound j k hit))
    | inr miss ↦ rw miss (client_at-cases k m h)
  ]

  merged-IsEntry :
      (c : RouterTrafficClient F) (m : Clients F)
      → is_empty (client_key c) ≡ false
      → has_traffic c ≡ true
      → IsKeyed m
      → IsEntry (client_key c) (merge_client (client_at (client_key c) m) c)
  merged-IsEntry c m some_key traffic h = (
    some_key,
    elim (client_at-cases (client_key c) m h) [
      | inl absent ↦ rw absent (client_key-merge_empty c)
      | inr there ↦ client_key-merge_client (client_at (client_key c) m) c there
    ],
    has_traffic-merge_client (client_at (client_key c) m) c traffic,
  )

  add_client-IsKeyed :
      (c : RouterTrafficClient F) (m : Clients F)
      → has_traffic c ≡ true
      → IsKeyed m
      → IsKeyed (add_client c m)
  unfolding add_client
  add_client-IsKeyed c m traffic h = elim (Bool-cases (is_empty (client_key c))) [
    | inl no_key ↦ rw no_key h
    | inr some_key ↦ rw some_key (
        put_client-IsKeyed (client_key c) (merge_client (client_at (client_key c) m) c) m
          (merged-IsEntry c m some_key traffic h) h)
  ]

  -- A client that the objects gave.
  abbrev pub IsReported : RouterTrafficClient F → Type 0
  IsReported c = (is_empty (client_key c) ≡ false) × (has_traffic c ≡ true)

  pub add_clients-IsKeyed :
      (cs : List (RouterTrafficClient F)) (m : Clients F)
      → All IsReported cs
      → IsKeyed m
      → IsKeyed (add_clients cs m)
  unfolding add_clients
  add_clients-IsKeyed [] m all h = h
  add_clients-IsKeyed (c ∷ cs) m (reported, all) h =
      add_clients-IsKeyed cs (add_client c m) all (add_client-IsKeyed c m reported.1 h)
