-- ===== src/Cluster/Config/Lists.antt =====
-- What the lists of addresses read as.
use ecphoria.Prelude.{◌≡◌, refl, ap, ◌∙◌, arith, false, not, List, [], ◌∷◌, map, keep, eqb, All}
use ecphoria.Prelude.Text.{Str, split, split-join, trim, join}
use ecphoria.Cluster.Config.{ClusterConfig, shard_base_urls, is_blank}

-- A URL as an administrator writes it: not empty, without blanks at its ends, without a comma.
abbrev pub IsUrl : Str → Type 0
IsUrl u = (is_blank u ≡ false) × (trim u ≡ u) × All (λ c. eqb c b',' ≡ false) u

no_commas : (us : List Str) → All IsUrl us → All (All (λ c. eqb c b',' ≡ false)) us
no_commas [] h = tt
no_commas (u ∷ us) h = (h.0.2, no_commas us h.1)

map-trim : (us : List Str) → All IsUrl us → map trim us ≡ us
map-trim [] h = refl
map-trim (u ∷ us) h = cc (h.0.1, map-trim us h.1)

keep-IsUrl : (us : List Str) → All IsUrl us → keep (λ u. not (is_blank u)) us ≡ us
keep-IsUrl [] h = refl
keep-IsUrl (u ∷ us) h = ground (arith, h.0.0, keep-IsUrl us h.1)

-- The URLs of all shards, joined by commas, read back in order.
pub shard_base_urls-join :
    (config : ClusterConfig) (u : Str) (us : List Str)
    → All IsUrl (u ∷ us)
    → config.shard_base_urls ≡ join (b',' ∷ []) (u ∷ us)
    → shard_base_urls config ≡ u ∷ us
unfolding shard_base_urls
shard_base_urls-join config u us h e =
    ap (λ s. keep (λ x. not (is_blank x)) (map trim (split b',' s))) e
    ∙ ap (λ l. keep (λ x. not (is_blank x)) (map trim l))
        (split-join b',' u us (no_commas (u ∷ us) h))
    ∙ ap (keep (λ x. not (is_blank x))) (map-trim (u ∷ us) h)
    ∙ keep-IsUrl (u ∷ us) h
