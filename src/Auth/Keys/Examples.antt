-- ===== src/Auth/Keys/Examples.antt =====
-- Keys at a concrete configuration, with the secret itself in place of its digest.
use ecphoria.Prelude.{◌≡◌, refl, some, List, [], ◌∷◌, In}
use ecphoria.Prelude.Text.{Str, codes, split_once}
use ecphoria.Auth.Roles.{reader, from_str_loose}
use ecphoria.Auth.Keys.{
  KeyDigest, ApiKeyInfo, ct_eq, diff_from, digest_of, split_entry, grant_of, parse_api_key,
  load_keys, find_from, find_key, find_key-load_keys, hex_to_digest,
}

abbrev plain : Str → KeyDigest
plain s = s

-- the second entry is malformed
abbrev entries : List Str
entries = codes "k@acme:reader" ∷ codes "sha256:zz" ∷ []

abbrev acme_reader : ApiKeyInfo
acme_reader = record { tenant = some (codes "acme"); role = reader }

k_found : find_key plain (load_keys plain entries) (codes "k") ≡ some acme_reader
unfolding find_key find_from load_keys parse_api_key digest_of split_entry grant_of hex_to_digest
    ct_eq diff_from split_once from_str_loose
k_found = refl

find_key-load_keys_example :
    (entry : Str) × In entry entries × (parse_api_key plain entry ≡ some (codes "k", acme_reader))
find_key-load_keys_example = find_key-load_keys plain entries (codes "k") acme_reader k_found
