-- ===== src/Router/Clients/Shuffled.antt =====
-- Go visits the keys of a map in any order, so the objects of a response come up in any order. Where
-- that does not matter for `ExtractClients`.
use homelink_monitor.Base.{
  ◌≡◌, refl, sym, ap, ◌∙◌, Bool, false, ◌||◌, Option, none, some, List, [], ◌∷◌, map, Text, text_eq,
  text_eq_iff, text_eq_sound, is_empty, if◌then◌else◌, any, find, All, Bool-cases, inl, inr, arith,
}
use homelink_monitor.Domain.{RouterTrafficClient}
use homelink_monitor.Router.Clients.{
  Clients, EndpointResponse, or_text, or_number, client_key, merge_client, client_at, add_client,
  add_clients, response_clients, extract_clients,
}
use homelink_monitor.Router.Clients.Keyed.{
  with_key, merge_from, keys, has_key, IsKeyed, IsReported, add_clients-IsKeyed,
  client_at-add_clients,
}
use homelink_monitor.Router.Clients.Merged.{has_key-add_client, response_clients-IsReported}

-- Another order of the same clients.
pub data Shuffle {F : Type 0}
    : List (RouterTrafficClient F) → List (RouterTrafficClient F) → Type 0 where
  unmoved : (cs : List (RouterTrafficClient F)) → Shuffle cs cs
  behind :
      (c : RouterTrafficClient F) {cs ds : List (RouterTrafficClient F)}
      → Shuffle cs ds
      → Shuffle (c ∷ cs) (c ∷ ds)
  swapped :
      (c d : RouterTrafficClient F) (cs : List (RouterTrafficClient F))
      → Shuffle (c ∷ d ∷ cs) (d ∷ c ∷ cs)
  twice : {cs ds es : List (RouterTrafficClient F)} → Shuffle cs ds → Shuffle ds es → Shuffle cs es

or_text-or_text : (a b c : Text) → or_text (or_text a b) c ≡ or_text a (or_text b c)
or_text-or_text a b c = elim (Bool-cases (is_empty a)) [
  | inl empty ↦ rw empty refl
  | inr given ↦ rw (given, given) refl
]

module _ {F : Type 0} where
  or_number-or_number :
      (a b c : Option F) → or_number (or_number a b) c ≡ or_number a (or_number b c)
  or_number-or_number none b c = refl
  or_number-or_number (some x) b c = refl

  merge_client-merge_client :
      (a b c : RouterTrafficClient F)
      → merge_client (merge_client a b) c ≡ merge_client a (merge_client b c)
  unfolding merge_client
  merge_client-merge_client a b c = λ i. record {
    mac = or_text-or_text a.mac b.mac c.mac i;
    ip = or_text-or_text a.ip b.ip c.ip i;
    hostname = or_text-or_text a.hostname b.hostname c.hostname i;
    connection = or_text-or_text a.connection b.connection c.connection i;
    download_bps = or_number-or_number a.download_bps b.download_bps c.download_bps i;
    upload_bps = or_number-or_number a.upload_bps b.upload_bps c.upload_bps i;
    total_bps = or_number-or_number a.total_bps b.total_bps c.total_bps i;
    download_bytes = or_number-or_number a.download_bytes b.download_bytes c.download_bytes i;
    upload_bytes = or_number-or_number a.upload_bytes b.upload_bytes c.upload_bytes i;
    total_bytes = or_number-or_number a.total_bytes b.total_bytes c.total_bytes i;
  }

  -- Clients of one key whose values do not conflict: merging them gives the same either way.
  abbrev pub Agree : (RouterTrafficClient F → Type 0) → Type 0
  Agree P =
      (c d : RouterTrafficClient F)
      → P c
      → P d
      → client_key c ≡ client_key d
      → merge_client c d ≡ merge_client d c

  module _ (P : RouterTrafficClient F → Type 0) where
    Shuffle-All : {cs ds : List (RouterTrafficClient F)} → Shuffle cs ds → All P cs → All P ds
    Shuffle-All (unmoved cs) h = h
    Shuffle-All (behind c s) h = (h.0, Shuffle-All s h.1)
    Shuffle-All (swapped c d cs) h = (h.1.0, (h.0, h.1.1))
    Shuffle-All (twice s t) h = Shuffle-All t (Shuffle-All s h)

    module _ (agree : Agree P) (k : Text) where
      merge_from-swapped :
          (c d m : RouterTrafficClient F) (cs : List (RouterTrafficClient F))
          → P c
          → P d
          → merge_from m (with_key k (c ∷ d ∷ cs)) ≡ merge_from m (with_key k (d ∷ c ∷ cs))
      merge_from-swapped c d m cs p q = elim (Bool-cases (text_eq (client_key c) k)) [
        | inl hit ↦ elim (Bool-cases (text_eq (client_key d) k)) [
          | inl hit' ↦
              let same_key : client_key c ≡ client_key d =
                text_eq_sound (client_key c) k hit ∙ sym (text_eq_sound (client_key d) k hit') in
              let same : merge_client (merge_client m c) d ≡ merge_client (merge_client m d) c =
                merge_client-merge_client m c d
                ∙ ap (merge_client m) (agree c d p q same_key)
                ∙ sym (merge_client-merge_client m d c) in
              rw (hit, hit') (ap (λ x. merge_from x (with_key k cs)) same)
          | inr miss' ↦ rw (hit, miss') refl
        ]
        | inr miss ↦ elim (Bool-cases (text_eq (client_key d) k)) [
          | inl hit' ↦ rw (miss, hit') refl
          | inr miss' ↦ rw (miss, miss') refl
        ]
      ]

      merge_from-Shuffle :
          {cs ds : List (RouterTrafficClient F)} (m : RouterTrafficClient F)
          → Shuffle cs ds
          → All P cs
          → merge_from m (with_key k cs) ≡ merge_from m (with_key k ds)
      merge_from-Shuffle m (unmoved cs) h = refl
      merge_from-Shuffle m (behind c s) h = elim (Bool-cases (text_eq (client_key c) k)) [
        | inl hit ↦ rw hit (merge_from-Shuffle (merge_client m c) s h.1)
        | inr miss ↦ rw miss (merge_from-Shuffle m s h.1)
      ]
      merge_from-Shuffle m (swapped c d cs) h = merge_from-swapped c d m cs h.0 h.1.0
      merge_from-Shuffle m (twice s t) h =
          merge_from-Shuffle m s h ∙ merge_from-Shuffle m t (Shuffle-All s h)

  module _ (k : Text) where
    abbrev of_key : RouterTrafficClient F → Bool
    of_key c = text_eq (client_key c) k

    any-Shuffle :
        {cs ds : List (RouterTrafficClient F)} → Shuffle cs ds → any of_key cs ≡ any of_key ds
    any-Shuffle (unmoved cs) = refl
    any-Shuffle (behind c s) = ap (λ b. of_key c || b) (any-Shuffle s)
    any-Shuffle (swapped c d cs) = ground arith
    any-Shuffle (twice s t) = any-Shuffle s ∙ any-Shuffle t

    has_key-add_clients :
        (cs : List (RouterTrafficClient F)) (m : Clients F)
        → is_empty k ≡ false
        → has_key k (keys (add_clients cs m)) ≡ (any of_key cs || has_key k (keys m))
    unfolding add_clients
    has_key-add_clients [] m given = refl
    has_key-add_clients (c ∷ cs) m given = ground (
      arith,
      has_key-add_clients cs (add_client c m) given,
      has_key-add_client k c m,
      text_eq_iff (client_key c) k,
    )

    -- The client of a key in the result is what the map holds.
    find-entries :
        (m : Clients F)
        → IsKeyed m
        → find of_key (map (λ entry. entry.1) m)
          ≡ (if has_key k (keys m) then some (client_at k m) else none)
    unfolding client_at
    find-entries [] h = refl
    find-entries ((j, c) ∷ m) ((some_key, same, traffic), absent, h) =
        rw same (ground (arith, find-entries m h))

module _ {F : Type 0} (k : Text) (given : is_empty k ≡ false) where
  -- What the map of these clients has for the key.
  find-add_clients :
      (cs : List (RouterTrafficClient F))
      → All IsReported cs
      → find (of_key k) (map (λ entry. entry.1) (add_clients cs [])) ≡ (
          if any (of_key k) cs || false
          then some (merge_from (client_at k []) (with_key k cs))
          else none)
  find-add_clients cs reported =
      find-entries k (add_clients cs []) (add_clients-IsKeyed cs [] reported tt)
      ∙ rw (has_key-add_clients k cs [] given, client_at-add_clients k cs [] given) refl

-- If the reported clients of one key have no conflicting values (merging two of them gives the same
-- either way), then the client that `ExtractClients` returns for a key does not depend on the order
-- in which the objects come up: it is the same for responses whose clients are those in another order.
pub extract_clients_shuffled :
    {F : Type 0} (parse_float : Text → Option F) (responses others : List (EndpointResponse F))
    (P : RouterTrafficClient F → Type 0) (k : Text)
    → Agree P
    → All P (response_clients parse_float responses)
    → Shuffle (response_clients parse_float responses) (response_clients parse_float others)
    → is_empty k ≡ false
    → find (λ c. text_eq (client_key c) k) (extract_clients parse_float responses)
      ≡ find (λ c. text_eq (client_key c) k) (extract_clients parse_float others)
unfolding extract_clients
extract_clients_shuffled parse_float responses others P k agree all shuffle given =
    let cs = response_clients parse_float responses in
    let ds = response_clients parse_float others in
    find-add_clients k given cs (response_clients-IsReported parse_float responses)
    ∙ rw (any-Shuffle k shuffle, merge_from-Shuffle P agree k (client_at k []) shuffle all) refl
    ∙ sym (find-add_clients k given ds (response_clients-IsReported parse_float others))
