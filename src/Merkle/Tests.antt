-- ===== src/Merkle/Tests.antt =====
-- A stand-in for SHA-256 and small trees.
use ledger_babylon_app.Common.{
  ℕ, ◌≡◌, refl, ap, arith, List, [], ◌∷◌, ◌++◌, length, take, replicate, append-nil, append_assoc,
  none, some, sym, ◌∙◌, length-take, length-append, length-replicate,
}
use mathlib.Core.List.{foldl, flatten}
use ledger_babylon_app.Merkle.{Sha256, merkle_get_ith_direction, ceil_lg_loop}
use ledger_babylon_app.Merkle.Tree.{Tree, leaf, node, IsMerkle, count}
use ledger_babylon_app.Merkle.Directions.{turn, ith_direction_lem}
use ledger_babylon_app.Merkle.Hang.{ceil_lg_hangs}

-- The first 32 bytes of the message, padded.
abbrev pub first_bytes : List ℕ → List ℕ
first_bytes m = take 32 (m ++ replicate 32 0)

pub fold-append :
    (acc : List ℕ) (chunks : List (List ℕ))
    → foldl (λ x y. x ++ y) acc chunks ≡ acc ++ flatten chunks
unfolding flatten
fold-append acc [] = sym (append-nil acc)
fold-append acc (c ∷ cs) = fold-append (acc ++ c) cs ∙ append_assoc acc c (flatten cs)

pub length-first_bytes : (m : List ℕ) → length (first_bytes m) ≡ 32
length-first_bytes m = omega (
  arith,
  length-take 32 (m ++ replicate 32 0),
  length-append m (replicate 32 0),
  length-replicate {A = ℕ} 32 0,
)

abbrev pub toy_sha : Sha256
toy_sha = record {
  Context = List ℕ;
  init = [];
  update = λ c m. c ++ m;
  digest = first_bytes;
  sha256 = first_bytes;
  digest_lem = λ chunks. ap first_bytes (fold-append [] chunks);
  length-sha256 = length-first_bytes;
}

abbrev pub two_leaves : Tree
two_leaves = node (leaf (first_bytes (0 ∷ 7 ∷ []))) (leaf (first_bytes (0 ∷ 9 ∷ [])))

abbrev pub three_leaves : Tree
three_leaves = node two_leaves (leaf (first_bytes (0 ∷ 5 ∷ [])))

pub two_leaves-IsMerkle : IsMerkle two_leaves
two_leaves-IsMerkle = (refl, refl, (0, refl, omega arith))

pub three_leaves-IsMerkle : IsMerkle three_leaves
three_leaves-IsMerkle = (two_leaves-IsMerkle, refl, (1, refl, omega arith))

ith_direction_lem_example :
    merkle_get_ith_direction (count three_leaves) 1 1 ≡ some (turn three_leaves 1 1)
ith_direction_lem_example =
    ith_direction_lem three_leaves 1 1 three_leaves-IsMerkle (omega arith) (omega arith)

ceil_lg_hangs_example : ceil_lg_loop 100 3000000000 0 1 ≡ none
ceil_lg_hangs_example = ceil_lg_hangs 3000000000 100 (omega arith)
