-- ===== src/Split/Empty.antt =====
-- `split` of a string without words.
use alphix.Base.{
  ℕ, arith, ◌<◌, ◌≡◌, ◌≢◌, ◌∙◌, ap, true, false, Option, none, some, List, [], ◌∷◌, ◌==◌, length,
  ◌>>=◌, if◌then◌else◌,
}
use alphix.Text.{IsText}
use alphix.Token.Words.{words}
use alphix.Heap.{Heap}
use alphix.Heap.Reuse.{kmalloc-zero}
use alphix.Split.{Store, split, count_loop, fill_loop}
use alphix.Split.Scan.{count_loop_lem}

-- Of a string in which the delimiter leaves no word, `split` asks for an array of no bytes, which
-- `kmalloc` refuses: it returns `NULL` without writing `*count`, as where memory has run out, and
-- changes nothing. The fuel is above the string's length, and the delimiter is not zero.
pub split-empty :
    (fuel str delimeter : ℕ) (text : List ℕ) (s : Store)
    → delimeter ≢ 0
    → IsText s.mem str text
    → length text < fuel
    → words (delimeter ∷ []) text ≡ []
    → split fuel str delimeter s ≡ some (0, none, s)
unfolding split
split-empty fuel str delimeter text s some_delimeter t f blank =
    let served : ℕ × Heap → Option (ℕ × Option ℕ × Store) = λ g. elim (g.0 == 0) [
      | true ↦ some (0, none, record s { heap = g.1 })
      | false ↦ fill_loop fuel fuel delimeter g.0 0 str (record s { heap = g.1 }) >>= λ r.
          some (if r.0 then (g.0, some 0, r.1) else (0, none, r.1))
    ] in
    let count = count_loop_lem fuel fuel s.mem delimeter str 0 text some_delimeter t f f in
    let nothing : length (words (delimeter ∷ []) text) ≡ 0 = ap (λ ws. length ws) blank in
    let counted : count_loop fuel fuel s.mem delimeter str 0 ≡ some 0 =
      count ∙ ap some (omega (arith, nothing)) in
    rw counted (ap (λ o. o >>= served) (kmalloc-zero s.heap))
