-- ===== src/Raft/Store/Recovery.antt =====
-- What a restart reads back: `open_db` over the database of a store whose cache and database agree.
use ecphoria.Prelude.{
  ℕ, ◌≡◌, ◌<◌, ◌∙◌, refl, Option, none, some, [], ◌∷◌, ◌++◌, arith, All, All-append, Option-cases,
  inl, inr,
}
use mathlib.Core.List.{append_assoc, append-nil}
use ecphoria.Prelude.Eq.{string_eq}
use ecphoria.Prelude.Rows.{Rows, put_end, IsSorted, Above}
use ecphoria.Raft.Types.{Types, Codecs, Entry, Bytes}
use ecphoria.Raft.Disk.{Disk}
use ecphoria.Raft.Store.{StoreInner, load_meta, load_rows, hydrate, hydrate_log, open_db, decoded}
use ecphoria.Raft.Store.Coherence.{Encodes, Agrees}

module _ {V : Type 0} where
  abbrev Below : ℕ → Rows V → Type 0
  Below k m = All (λ (e : ℕ × V). e.0 < k) m

  abbrev AllBelow : Rows V → Rows V → Type 0
  AllBelow acc m = All (λ (e : ℕ × V). Below e.0 acc) m

  Below-append :
      (acc : Rows V) (k j : ℕ) (v : V) → k < j → Below j acc → Below j (acc ++ (k, v) ∷ [])
  Below-append acc k j v h b = All-append (λ (e : ℕ × V). e.0 < j) acc ((k, v) ∷ []) b (h, tt)

  AllBelow-append :
      (acc : Rows V) (k : ℕ) (v : V) (m : Rows V)
      → Above k m
      → AllBelow acc m
      → AllBelow (acc ++ (k, v) ∷ []) m
  AllBelow-append acc k v [] a b = tt
  AllBelow-append acc k v ((j, w) ∷ m) a b =
      (Below-append acc k j v a.0 b.0, AllBelow-append acc k v m a.1 b.1)

  AllBelow-nil : (m : Rows V) → AllBelow [] m
  AllBelow-nil [] = tt
  AllBelow-nil (e ∷ m) = (tt, AllBelow-nil m)

module _ {t : Types} (c : Codecs t) where
  -- what the encoding of an entry decodes to
  abbrev pub redecoded : Entry t → Option (Entry t)
  redecoded e = decoded c.entry.from_slice (c.entry.to_vec e)

  abbrev pub IsLossless : ℕ × Entry t → Type 0
  IsLossless (i, e) = redecoded e ≡ some e

  abbrev cons_redecoded : ℕ → Option (Entry t) → Rows (Entry t) → Rows (Entry t)
  cons_redecoded i none m = m
  cons_redecoded i (some e) m = (i, e) ∷ m

  -- The log that a restart makes of a log: each entry as its encoding decodes, and without those
  -- whose encoding does not decode.
  unfoldable pub reread : Rows (Entry t) → Rows (Entry t)
  reread [] = []
  reread ((i, e) ∷ m) = cons_redecoded i (redecoded e) (reread m)

  pub reread-IsLossless : (m : Rows (Entry t)) → All IsLossless m → reread m ≡ m
  unfolding reread
  reread-IsLossless [] h = refl
  reread-IsLossless ((i, e) ∷ m) h = rw (h.0, reread-IsLossless m h.1)

  -- The encodings of a sorted map, loaded after smaller keys, are what it is reread as behind them.
  load_rows-append :
      (rows : Rows Bytes) (m acc : Rows (Entry t))
      → Encodes c.entry.to_vec rows m
      → IsSorted m
      → AllBelow acc m
      → load_rows c rows acc ≡ acc ++ reread m
  unfolding load_rows reread
  load_rows-append [] [] acc r s b = rw append-nil
  load_rows-append ((i, x) ∷ rows) [] acc r s b = absurd r
  load_rows-append [] (e ∷ m) acc r s b = absurd r
  load_rows-append ((i, x) ∷ rows) ((j, y) ∷ m) acc r s b =
      elim (Option-cases (c.entry.from_slice x)) [
        | inr n ↦ rw (r.0, r.1, n) (load_rows-append rows m acc r.2 s.1 b.1)
        | inl (z, q) ↦
            rw (r.0, r.1, q, put_end j z acc b.0)
              (load_rows-append rows m (acc ++ (j, z) ∷ []) r.2 s.1
                  (AllBelow-append acc j z m s.0 b.1)
                ∙ append_assoc acc ((j, z) ∷ []) (reread m))
      ]

  -- A store whose database agrees with it is read back by a restart as it was, but for the entries
  -- of the log, which are reread, and the snapshot, which is kept in memory alone. No statement of
  -- the restart fails.
  pub open_db_rereads :
      (s : StoreInner t) (d : Disk Bytes)
      → Agrees c s d
      → d.faults ≡ []
      → open_db c d ≡ record s { db = some d; log = reread s.log; snapshot = none }
  unfolding open_db hydrate hydrate_log load_meta
  open_db_rereads s d a h =
      ground (arith, load_rows-append d.raft_log s.log [] a.entries a.sorted (AllBelow-nil s.log))
