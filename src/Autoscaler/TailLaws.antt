-- ===== src/Autoscaler/TailLaws.antt =====
-- However the log grows between the ticks, each of its complete lines is read once, in order.
use pelican_egg_dune_awakeni.Base.{
  ℕ, zero, suc, ◌+◌, ◌-◌, ◌≤◌, ◌≡◌, ◌∙◌, sym, ap, refl, false, List, [], ◌∷◌, ◌++◌, some, ltb, ◌==◌,
  length, length-append, Bool-cases, inl, inr, or_else, arith,
}
use mathlib.Core.List.{append_assoc, append-nil}
use pelican_egg_dune_awakeni.Autoscaler.Tail.{
  drop, newline, keep, complete, consume, read_new_log_lines,
}

keep-newline : (bytes : List ℕ) → keep newline bytes ≡ newline ∷ bytes
keep-newline [] = refl
keep-newline (c ∷ bytes) = refl

keep-length : (x : ℕ) (c : List ℕ) (n : ℕ) → length c ≤ n → length (keep x c) ≤ suc n
keep-length x [] n h = ground arith
keep-length x (d ∷ ds) n h = omega arith

complete-length : (xs : List ℕ) → length (complete xs) ≤ length xs
unfolding complete
complete-length [] = omega arith
complete-length (x ∷ xs) = keep-length x (complete xs) (length xs) (complete-length xs)

drop-append : (n : ℕ) (xs ys : List ℕ) → n ≤ length xs → drop n (xs ++ ys) ≡ drop n xs ++ ys
drop-append zero xs ys h = refl
drop-append (suc n) [] ys h = absurd (omega arith)
drop-append (suc n) (x ∷ xs) ys h = drop-append n xs ys (omega arith)

drop-drop : (n m : ℕ) (xs : List ℕ) → n ≤ length xs → drop (n + m) xs ≡ drop m (drop n xs)
drop-drop zero m xs h = let e : 0 + m ≡ m = omega arith in ap (λ k. drop k xs) e
drop-drop (suc n) m [] h = absurd (omega arith)
drop-drop (suc n) m (x ∷ xs) h =
    let e : suc n + m ≡ suc (n + m) = omega arith in
    ap (λ k. drop k (x ∷ xs)) e ∙ drop-drop n m xs (omega arith)

drop-length : (n : ℕ) (xs : List ℕ) → length (drop n xs) ≡ length xs - n
drop-length zero xs = omega arith
drop-length (suc n) [] = omega arith
drop-length (suc n) (x ∷ xs) = omega (arith, drop-length n xs)

keep-append :
    (x : ℕ) (xs ys c : List ℕ)
    → complete (xs ++ ys) ≡ c ++ complete (drop (length c) xs ++ ys)
    → keep x (complete (xs ++ ys)) ≡ keep x c ++ complete (drop (length (keep x c)) (x ∷ xs) ++ ys)
unfolding complete
keep-append x xs ys [] h = elim (Bool-cases (x == newline)) [
  | inl e ↦ let same : x ≡ newline = ground arith in rw same (keep-newline (complete (xs ++ ys)))
  | inr e ↦ rw e refl
]
keep-append x xs ys (d ∷ ds) h = ap (keep x) h

-- what is complete stays so, and what is added is read from there
complete-append :
    (xs ys : List ℕ)
    → complete (xs ++ ys) ≡ complete xs ++ complete (drop (length (complete xs)) xs ++ ys)
unfolding complete
complete-append [] ys = refl
complete-append (x ∷ xs) ys = keep-append x xs ys (complete xs) (complete-append xs ys)

abbrev pub concat : List (List ℕ) → List ℕ
concat [] = []
concat (c ∷ cs) = c ++ concat cs

-- What the ticks read: before each of them the next chunk is appended to the log, and each
-- takes the offset that the one before stored.
unfoldable pub polls : List ℕ → ℕ → List (List ℕ) → List ℕ
polls log o [] = []
polls log o (chunk ∷ chunks) =
    let r = read_new_log_lines (some (length (log ++ chunk))) (some (log ++ chunk)) (some o) in
    r.consumed ++ polls (log ++ chunk) (or_else r.offset 0) chunks

-- one reading, and one from where it stopped after the log has grown
resume :
    (o : ℕ) (log more : List ℕ)
    → o ≤ length log
    → complete (drop o log) ++ complete (drop (o + length (complete (drop o log))) (log ++ more))
      ≡ complete (drop o (log ++ more))
resume o log more h =
    let x = drop o log in
    let n = length (complete x) in
    let inside = complete-length x in
    let size = drop-length o log in
    let whole = length-append log more in
    let moved : drop (o + n) (log ++ more) ≡ drop n x ++ more =
      drop-drop o n (log ++ more) (omega arith)
      ∙ ap (drop n) (drop-append o log more h)
      ∙ drop-append n x more inside in
    ap (λ t. complete x ++ complete t) moved
    ∙ sym (complete-append x more)
    ∙ ap complete (sym (drop-append o log more h))

read_new_log_lines-consume :
    (o : ℕ) (log : List ℕ)
    → o ≤ length log
    → read_new_log_lines (some (length log)) (some log) (some o) ≡ consume o log
unfolding read_new_log_lines
read_new_log_lines-consume o log h = let e : ltb (length log) o ≡ false = ground arith in rw e refl

-- If the log only grows between the ticks, in chunks of any length, what the ticks read of it is,
-- in order and once, all that lies between the first stored offset, which is within the log, and
-- the last newline.
pub polls-complete :
    (log : List ℕ) (o : ℕ) (chunk : List ℕ) (chunks : List (List ℕ))
    → o ≤ length log
    → polls log o (chunk ∷ chunks) ≡ complete (drop o (log ++ concat (chunk ∷ chunks)))
unfolding polls
polls-complete log o chunk [] h =
    let size = length-append log chunk in
    let e = read_new_log_lines-consume o (log ++ chunk) (omega arith) in
    rw (e, append-nil chunk, append-nil (complete (drop o (log ++ chunk)))) refl
polls-complete log o chunk (next ∷ chunks) h =
    let size = length-append log chunk in
    let x = drop o (log ++ chunk) in
    let inside = complete-length x in
    let left = drop-length o (log ++ chunk) in
    let e = read_new_log_lines-consume o (log ++ chunk) (omega arith) in
    let rest = polls-complete (log ++ chunk) (o + length (complete x)) next chunks (omega arith) in
    rw (e) (
      ap (λ t. complete x ++ t) rest
      ∙ resume o (log ++ chunk) (concat (next ∷ chunks)) (omega arith)
      ∙ ap (λ t. complete (drop o t)) (append_assoc log chunk (concat (next ∷ chunks))))
