-- ===== src/State/Store/Examples.antt =====
-- The state store on texts that stand for themselves.
use ecphoria.Prelude.{◌≡◌, refl, sym, true, none, some, [], ◌∷◌, if◌then◌else◌, inl}
use ecphoria.Prelude.Assoc.{lookup, insert, lookup-nil}
use ecphoria.Prelude.Result.{ok}
use ecphoria.Prelude.Text.{Str, codes, starts_with, to_lowercase}
use ecphoria.State.Like.{like, prefix_pattern}
use ecphoria.State.Table.{Json, Clock, Key, key_eq, is_expired, keys_where, delete_rows}
use ecphoria.State.Store.{
  StateStore, get, set, set_with_ttl, write, cleanup_expired, delete_by_prefix, compare_and_swap,
}
use ecphoria.State.Store.Fresh.{IsFresh, kept_row}
use ecphoria.State.Store.Reads.{
  next_version, entry, get-set_self, get-set_with_ttl_self, cleanup_expired_lem,
}
use ecphoria.State.Store.Erasure.{start, step, written, lookup-delete_by_prefix, Reach-IsFresh}

abbrev texts : Json
texts = record {
  Value = Str;
  null = [];
  to_string = λ v. some v;
  from_str = λ s. some s;
  from_str-to_string = λ v s h. sym h;
}

abbrev clock : Clock
clock = record { to_rfc3339 = λ n. n ∷ []; datetime = λ n. n ∷ [] }

abbrev empty : StateStore texts
empty = record { table = []; faults = []; cache = []; sent = [] }

empty-IsFresh : IsFresh empty
empty-IsFresh = record { unique = tt; cached = λ k. inl (lookup-nil k) }

abbrev k : Key
k = (codes "acme:bot", codes "mood")

abbrev happy : Str
happy = codes "happy"

abbrev sad : Str
sad = codes "sad"

abbrev filled : StateStore texts
filled = (set k happy empty).1

filled_ok : (set k happy empty).0 ≡ ok 1
unfolding set write insert lookup key_eq
filled_ok = refl

get-set_self_example :
    (1 ≡ next_version (lookup k empty.table))
    × ((get (codes "now") k filled).0 ≡ some (entry k happy 1))
get-set_self_example = get-set_self k happy (codes "now") empty 1 filled_ok

ttl_ok : (set_with_ttl clock k sad 3 empty).0 ≡ ok 1
unfolding set_with_ttl write insert lookup key_eq
ttl_ok = refl

-- read at a time after the expiry
get-set_with_ttl_self_example :
    (1 ≡ next_version (lookup k empty.table))
    × ((get (9 ∷ []) k (set_with_ttl clock k sad 3 empty).1).0 ≡ some (entry k sad 1))
get-set_with_ttl_self_example = get-set_with_ttl_self clock k sad 3 (9 ∷ []) empty 1 ttl_ok

filled_works : filled.faults ≡ []
unfolding set write insert lookup key_eq
filled_works = refl

swapped_ok : (compare_and_swap k 1 sad filled).0 ≡ ok true
unfolding compare_and_swap set write insert lookup key_eq
swapped_ok = refl

filled-IsFresh : IsFresh filled
filled-IsFresh = Reach-IsFresh (step start (written k happy 1 filled_ok)) empty-IsFresh

cleanup_expired_lem_example :
    lookup k (cleanup_expired (codes "now") filled).1.table
    ≡ kept_row (λ _ r. is_expired (codes "now") r) k (lookup k filled.table)
cleanup_expired_lem_example = cleanup_expired_lem (codes "now") k filled filled-IsFresh filled_works

erased_ok : (delete_by_prefix (codes "ACME:") filled).0 ≡ ok 1
unfolding delete_by_prefix set write insert lookup key_eq keys_where delete_rows like prefix_pattern
erased_ok = refl

lookup-delete_by_prefix_example :
    (lookup k (delete_by_prefix (codes "ACME:") filled).1.table ≡ (
      if starts_with (to_lowercase (codes "ACME:")) (to_lowercase k.0)
      then none
      else lookup k filled.table))
    × (lookup k (delete_by_prefix (codes "ACME:") filled).1.cache ≡ none)
lookup-delete_by_prefix_example =
    lookup-delete_by_prefix (codes "ACME:") k filled 1 filled-IsFresh erased_ok
