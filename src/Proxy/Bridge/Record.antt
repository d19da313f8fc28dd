-- ===== src/Proxy/Bridge/Record.antt =====
-- One row of the recording.
use gojump.Prelude.{
  Str, List, [], ◌∷◌, ◌++◌, Bool, true, false, some, keep, ◌≡◌, refl, sym, ap, ◌∙◌, arith,
  append-nil,
}
use gojump.Proxy.Bridge.{ReplyRecorder, disabled, broken, writing, record_row}

unfoldable pub is_some_text : Str → Bool
is_some_text [] = false
is_some_text (b ∷ bs) = true

unfoldable pub has_rows : List Str → Bool
has_rows [] = false
has_rows (r ∷ rs) = true

-- The recording has exactly what was sent, and its header as soon as it has a row.
unfoldable pub IsRecorded : ReplyRecorder → List Str → Type 0
unfolding has_rows is_some_text
IsRecorded disabled sent = ⊥
IsRecorded broken sent = ⊥
IsRecorded (writing header rows) sent = (header ≡ has_rows rows) × (rows ≡ keep is_some_text sent)

keep-append : (p : Str → Bool) (xs ys : List Str) → keep p (xs ++ ys) ≡ keep p xs ++ keep p ys
keep-append p [] ys = refl
keep-append p (x ∷ xs) ys = ground (arith, keep-append p xs ys)

has_rows-append : (xs : List Str) (y : Str) → has_rows (xs ++ (y ∷ [])) ≡ true
unfolding has_rows
has_rows-append [] y = refl
has_rows-append (x ∷ xs) y = refl

-- One recorded row, and what it does to the relation.
record_row-IsRecorded :
    (header : Bool) (rows sent : List Str) (p : Str)
    → IsRecorded (writing header rows) sent
    → (r : ReplyRecorder) × (record_row (writing header rows) p ≡ some r)
      × IsRecorded r (sent ++ (p ∷ []))
unfolding record_row IsRecorded is_some_text
record_row-IsRecorded header rows sent [] (h, q) = (
  writing header rows,
  refl,
  (h, q ∙ sym (append-nil _) ∙ sym (keep-append is_some_text sent ([] ∷ []))),
)
record_row-IsRecorded header rows sent (b ∷ bs) (h, q) = (
  writing true (rows ++ ((b ∷ bs) ∷ [])),
  refl,
  (
    sym (has_rows-append rows (b ∷ bs)),
    ap (λ l. l ++ ((b ∷ bs) ∷ [])) q ∙ sym (keep-append is_some_text sent ((b ∷ bs) ∷ [])),
  ),
)

pub record_row-kept :
    (r : ReplyRecorder) (sent : List Str) (p : Str)
    → IsRecorded r sent
    → (r' : ReplyRecorder) × (record_row r p ≡ some r') × IsRecorded r' (sent ++ (p ∷ []))
unfolding IsRecorded
record_row-kept disabled sent p h = absurd h
record_row-kept broken sent p h = absurd h
record_row-kept (writing header rows) sent p h = record_row-IsRecorded header rows sent p h
