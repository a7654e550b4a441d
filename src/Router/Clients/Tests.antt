-- ===== src/Router/Clients/Tests.antt =====
-- Two objects of one client.
use homelink_monitor.Base.{
  ℕ, ◌≡◌, ◌+◌, ◌*◌, ◌/◌, refl, true, none, some, List, [], ◌∷◌, Text, map, bytes, text_eq,
  trim_space, trim_left, trim_right, ltb, Floats, All, Option, ◌⊎◌, inl, inr, find,
}
use homelink_monitor.Domain.{RouterTrafficClient}
use homelink_monitor.Router.Json.{
  Fields, text, number, array, object, nil, item, end, field, collect_objects, first_string,
  first_number, number_value, get,
}
use homelink_monitor.Router.Clients.{
  EndpointResponse, empty_client, client_key, clients_of, object_to_client, read_client,
  response_clients, extract_clients, add_clients, add_client, put_client, client_at, merge_client,
  sum_clients,
}
use homelink_monitor.Router.Clients.Keyed.{IsDistinct, has_key}
use homelink_monitor.Router.Clients.Merged.{IsMerged, extract_clients_lem}
use homelink_monitor.Router.Clients.Shuffled.{Agree, swapped, extract_clients_shuffled}
use homelink_monitor.Router.Clients.Sums.{values_of, total_of, sum_clients_lem}

abbrev no_floats : Text → Option ℕ
no_floats s = none

abbrev responses : List (EndpointResponse ℕ)
responses =
    record {
      source = b's' ∷ [];
      payload = array (
          item
            (object (field (bytes "mac") (text (b'm' ∷ [])) (field (bytes "rate") (number 5) end)))
            (item
              (object (
                field (bytes "mac") (text (b'm' ∷ []))
                  (field (bytes "down_speed") (number 7) (field (bytes "rate") (number 6) end))))
              nil));
    }
    ∷ []

-- The first rate stays, and the missing one is filled in.
one_client :
    extract_clients no_floats responses
    ≡ record empty_client { mac = b'm' ∷ []; download_bps = some 7; total_bps = some 5 } ∷ []
unfolding extract_clients response_clients clients_of collect_objects object_to_client read_client
    first_string first_number number_value get bytes text_eq trim_space trim_left trim_right
    add_clients add_client put_client client_at merge_client client_key
one_client = refl

extract_clients_lem_example :
    All (IsMerged (response_clients no_floats responses)) (extract_clients no_floats responses)
    × IsDistinct (map (λ c. client_key c) (extract_clients no_floats responses))
    × All
        (λ c.
          has_key (client_key c) (map (λ d. client_key d) (extract_clients no_floats responses))
          ≡ true)
        (response_clients no_floats responses)
extract_clients_lem_example = extract_clients_lem no_floats responses

abbrev whole : Floats ℕ
whole = record { of_nat = λ n. n; less = ltb; plus = ◌+◌; times = ◌*◌; over = ◌/◌ }

sum_clients_lem_example :
    sum_clients whole (λ c. c.total_bps) (extract_clients no_floats responses)
    ≡ total_of whole (values_of (λ c. c.total_bps) (extract_clients no_floats responses))
sum_clients_lem_example =
    sum_clients_lem whole (λ c. c.total_bps) (extract_clients no_floats responses)

-- The same two objects, the other way round.
abbrev with_rate : Fields ℕ
with_rate = field (bytes "mac") (text (b'm' ∷ [])) (field (bytes "rate") (number 5) end)

abbrev with_speed : Fields ℕ
with_speed = field (bytes "mac") (text (b'm' ∷ [])) (field (bytes "down_speed") (number 7) end)

abbrev from_objects : Fields ℕ → Fields ℕ → List (EndpointResponse ℕ)
from_objects m n =
    record { source = b's' ∷ []; payload = array (item (object m) (item (object n) nil)) } ∷ []

abbrev rated : RouterTrafficClient ℕ
rated = record empty_client { mac = b'm' ∷ []; total_bps = some 5 }

abbrev sped : RouterTrafficClient ℕ
sped = record empty_client { mac = b'm' ∷ []; download_bps = some 7 }

abbrev IsEither : RouterTrafficClient ℕ → Type 0
IsEither c = (c ≡ rated) ⊎ (c ≡ sped)

IsEither-Agree : Agree IsEither
unfolding merge_client
IsEither-Agree c d (inl p) (inl q) same = rw (p, q) refl
IsEither-Agree c d (inl p) (inr q) same = rw (p, q) refl
IsEither-Agree c d (inr p) (inl q) same = rw (p, q) refl
IsEither-Agree c d (inr p) (inr q) same = rw (p, q) refl

one_order : response_clients no_floats (from_objects with_rate with_speed) ≡ rated ∷ sped ∷ []
unfolding response_clients clients_of collect_objects object_to_client read_client first_string
    first_number number_value get bytes text_eq trim_space trim_left trim_right
one_order = refl

other_order : response_clients no_floats (from_objects with_speed with_rate) ≡ sped ∷ rated ∷ []
unfolding response_clients clients_of collect_objects object_to_client read_client first_string
    first_number number_value get bytes text_eq trim_space trim_left trim_right
other_order = refl

extract_clients_shuffled_example :
    find
      (λ c. text_eq (client_key c) (b'm' ∷ []))
      (extract_clients no_floats (from_objects with_rate with_speed))
    ≡ find
        (λ c. text_eq (client_key c) (b'm' ∷ []))
        (extract_clients no_floats (from_objects with_speed with_rate))
extract_clients_shuffled_example =
    extract_clients_shuffled no_floats (from_objects with_rate with_speed)
      (from_objects with_speed with_rate) IsEither (b'm' ∷ []) IsEither-Agree
      (rw one_order (inl refl, (inr refl, tt)))
      (rw (one_order, other_order) (swapped rated sped [])) refl
