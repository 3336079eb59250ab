-- ===== src/Merkle/Tree.antt =====
-- The Merkle trees of RFC 6962, independently of the code: the shape, the root hash, the leaves, and
-- the node that lies `k` steps below the root on the way to a leaf.
use ledger_babylon_app.Common.{
  Bool-cases, inl, inr, subst, refl, ap, ◌∙◌, ℕ, zero, suc, ◌+◌, ◌-◌, ◌^◌, ◌≤◌, ◌<◌, ◌≡◌, arith,
  List, [], ◌∷◌, ◌++◌, Option, none, some, length, get_elem?, ltb, if◌then◌else◌, length-append,
}
use ledger_babylon_app.Merkle.{Sha256, merkle_combine_hashes}

pub data Tree : Type 0 where
  leaf : List ℕ → Tree
  node : Tree → Tree → Tree

abbrev pub count : Tree → ℕ
count (leaf h) = 1
count (node l r) = count l + count r

abbrev pub leaves : Tree → List (List ℕ)
leaves (leaf h) = h ∷ []
leaves (node l r) = leaves l ++ leaves r

-- A left subtree is full, and holds at least as many leaves as the right one: it takes the largest
-- power of two that is smaller than the number of leaves.
abbrev pub IsMerkle : Tree → Type 0
IsMerkle (leaf h) = length h ≡ 32
IsMerkle (node l r) = IsMerkle l × IsMerkle r × ((k : ℕ) × (count l ≡ 2 ^ k) × (count r ≤ 2 ^ k))

-- The node reached after `k` steps towards the leaf at `index`.
abbrev pub descend : Tree → ℕ → ℕ → Option Tree
descend t index zero = some t
descend (leaf h) index (suc k) = none
descend (node l r) index (suc k) =
    if ltb index (count l) then descend l index k else descend r (index - count l) k

pub length-leaves : (t : Tree) → length (leaves t) ≡ count t
length-leaves (leaf h) = omega arith
length-leaves (node l r) =
    omega (arith, length-append (leaves l) (leaves r), length-leaves l, length-leaves r)

pub count-pos : (t : Tree) → 0 < count t
count-pos (leaf h) = omega arith
count-pos (node l r) = omega (arith, count-pos l)

get_elem?-append_left :
    (xs ys : List (List ℕ)) (i : ℕ) → i < length xs → get_elem? (xs ++ ys) i ≡ get_elem? xs i
get_elem?-append_left [] ys i h = absurd (omega arith)
get_elem?-append_left (x ∷ xs) ys zero h = refl
get_elem?-append_left (x ∷ xs) ys (suc i) h = get_elem?-append_left xs ys i (omega arith)

get_elem?-append_right :
    (xs ys : List (List ℕ)) (i : ℕ)
    → length xs ≤ i
    → get_elem? (xs ++ ys) i ≡ get_elem? ys (i - length xs)
get_elem?-append_right [] ys i h = ap (get_elem? ys) (omega arith)
get_elem?-append_right (x ∷ xs) ys zero h = absurd (omega arith)
get_elem?-append_right (x ∷ xs) ys (suc i) h =
    get_elem?-append_right xs ys i (omega arith) ∙ ap (get_elem? ys) (omega arith)

-- A leaf that the way to `index` ends at is the one at `index`.
pub descend-leaf :
    (t : Tree) (index k : ℕ) (h : List ℕ)
    → index < count t
    → descend t index k ≡ some (leaf h)
    → get_elem? (leaves t) index ≡ some h
descend-leaf (leaf g) zero zero h lt e = ground arith
descend-leaf (leaf g) (suc i) zero h lt e = absurd (omega arith)
descend-leaf (leaf g) i (suc k) h lt e = cc
descend-leaf (node l r) i zero h lt e = cc
descend-leaf (node l r) i (suc k) h lt e = ground (
  arith,
  length-leaves l,
  get_elem?-append_left (leaves l) (leaves r) i,
  get_elem?-append_right (leaves l) (leaves r) i,
  descend-leaf l i k h,
  descend-leaf r (i - count l) k h,
)

module _ (sha : Sha256) where
  abbrev pub root : Tree → List ℕ
  root (leaf h) = h
  root (node l r) = merkle_combine_hashes sha (root l) (root r)

  pub length-root : (t : Tree) → IsMerkle t → length (root t) ≡ 32
  length-root (leaf h) m = m
  length-root (node l r) m = unfold merkle_combine_hashes in sha.length-sha256 _

pub descend-IsMerkle :
    (t : Tree) (index k : ℕ) {s : Tree} → IsMerkle t → descend t index k ≡ some s → IsMerkle s
descend-IsMerkle t index zero {s} m e = let same : t ≡ s = cc in subst IsMerkle same m
descend-IsMerkle (leaf h) index (suc k) m e = cc
descend-IsMerkle (node l r) index (suc k) m e = elim (Bool-cases (ltb index (count l))) [
  | inl below ↦ descend-IsMerkle l index k m.0 (rw below at e)
  | inr above ↦ descend-IsMerkle r (index - count l) k m.1 (rw above at e)
]
