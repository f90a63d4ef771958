-- ===== src/Autoscaler/Tail.antt =====
-- `read_new_log_lines`: the log reader that gives each complete line to one tick. Bytes stand for
-- the lines, which the script decodes and splits.
use pelican_egg_dune_awakeni.Base.{
  ℕ, zero, suc, ◌+◌, List, [], ◌∷◌, Option, none, some, ltb, ◌==◌, length, if◌then◌else◌,
}

pub record NewLines : Type 0 where
  pub consumed : List ℕ
  pub offset : Option ℕ

abbrev pub drop : ℕ → List ℕ → List ℕ
drop zero bytes = bytes
drop (suc n) [] = []
drop (suc n) (b ∷ bytes) = drop n bytes

abbrev pub newline : ℕ
newline = 10

abbrev pub keep : ℕ → List ℕ → List ℕ
keep b [] = if b == newline then b ∷ [] else []
keep b (c ∷ bytes) = b ∷ c ∷ bytes

-- `data[:data.rfind(b"\n") + 1]`
unfoldable pub complete : List ℕ → List ℕ
complete [] = []
complete (b ∷ bytes) = keep b (complete bytes)

abbrev pub consume : ℕ → List ℕ → NewLines
consume o bytes = record {
  consumed = complete (drop o bytes);
  offset = some (o + length (complete (drop o bytes)));
}

-- `none` is an OSError of `open` or `read`
abbrev pub read_from : ℕ → Option (List ℕ) → NewLines
read_from o none = record { consumed = []; offset = some o }
read_from o (some bytes) = consume o bytes

-- the size that `getsize` gives, the bytes that the file then holds, and the stored offset
unfoldable pub read_new_log_lines : Option ℕ → Option (List ℕ) → Option ℕ → NewLines
read_new_log_lines none contents offset = record { consumed = []; offset = offset }
read_new_log_lines (some size) contents none = record { consumed = []; offset = some size }
read_new_log_lines (some size) contents (some o) = read_from (if ltb size o then 0 else o) contents
