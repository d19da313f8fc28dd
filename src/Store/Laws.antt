-- ===== src/Store/Laws.antt =====
-- What the loops over a query's documents compute.
use gojump.Prelude.{
  List, [], ◌∷◌, ◌++◌, map, Option, none, ◌≡◌, refl, append-nil, append_assoc, arith,
}
use gojump.Store.{Error, scan_all, collect}

module _ {Doc M : Type 0} (scan : Doc → M → M × Option Error) (read : Doc → M) where
  -- A scan that reads every document whole, whatever the variable held.
  abbrev pub ReadsWhole : Type 0
  ReadsWhole = (d : Doc) (m : M) → scan d m ≡ (read d, none)

  abbrev pub last_read : M → List Doc → M
  last_read m [] = m
  last_read m (d ∷ ds) = last_read (read d) ds

  pub scan_all-last :
      (h : ReadsWhole) (ds : List Doc) (end : Option Error) (m : M)
      → scan_all scan ds end m ≡ (last_read m ds, end)
  scan_all-last h [] end m = refl
  scan_all-last h (d ∷ ds) end m = ground (arith, h d m, scan_all-last h ds end (read d))

  pub collect-append :
      (h : ReadsWhole) (z : M) (ds : List Doc) (end : Option Error) (models : List M)
      → collect scan z ds end models ≡ (models ++ map read ds, end)
  collect-append h z [] end models = rw append-nil
  collect-append h z (d ∷ ds) end models = ground (
    arith,
    h d z,
    collect-append h z ds end (models ++ (read d ∷ [])),
    append_assoc models (read d ∷ []) (map read ds),
  )
