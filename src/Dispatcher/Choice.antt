-- ===== src/Dispatcher/Choice.antt =====
-- The choice of a handler by the class and the instruction of a command.
use ledger_babylon_app.Common.{
  ◌≡◌, ◌≢◌, inl, inr, refl, ap, arith, List, [], ◌∷◌, ◌++◌, Bool, true, false, All, Bool-cases,
  ◌==◌, ==_iff, ==-false, ne→==,
}
use ledger_babylon_app.Apdu.{Command}
use ledger_babylon_app.Dispatcher.{CommandDescriptor, Lookup, no_cla, no_ins, found, lookup}

-- A descriptor of the class and the instruction of a command.
abbrev pub IsMatch : Command → CommandDescriptor → Type 0
IsMatch cmd e = (e.cla ≡ cmd.cla) × (e.ins ≡ cmd.ins)

-- What the loop over the descriptors finds: the handler of the first descriptor with the class and the
-- instruction; or there is no such descriptor; or there is not even one with the class.
abbrev pub IsLookup : List CommandDescriptor → Command → Lookup → Type 0
IsLookup ds cmd no_cla = All (λ e. e.cla ≢ cmd.cla) ds
IsLookup ds cmd no_ins = All (λ e. ¬ IsMatch cmd e) ds
IsLookup ds cmd (found h) =
    (before : List CommandDescriptor) × (e : CommandDescriptor) × (rest : List CommandDescriptor)
    × (ds ≡ before ++ (e ∷ rest))
    × IsMatch cmd e
    × (e.handler ≡ h)
    × All (λ e'. ¬ IsMatch cmd e') before

-- After a descriptor with the class, the loop no longer reports that there is none.
lookup_cla_found : (ds : List CommandDescriptor) (cmd : Command) → lookup ds cmd true ≢ no_cla
unfolding lookup
lookup_cla_found [] cmd = λ e. cc
lookup_cla_found (e ∷ es) cmd = ground (arith, lookup_cla_found es cmd)

skip_descriptor :
    (e : CommandDescriptor) (es : List CommandDescriptor) (cmd : Command) (l : Lookup)
    → ¬ IsMatch cmd e
    → (l ≡ no_cla → e.cla ≢ cmd.cla)
    → IsLookup es cmd l
    → IsLookup (e ∷ es) cmd l
skip_descriptor e es cmd no_cla other none_yet h = (none_yet refl, h)
skip_descriptor e es cmd no_ins other none_yet h = (other, h)
skip_descriptor e es cmd (found f) other none_yet (before, e', rest, split, m, f_eq, others) =
    (e ∷ before, e', rest, ap (λ t. e ∷ t) split, m, f_eq, (other, others))

pub lookup-IsLookup :
    (ds : List CommandDescriptor) (cmd : Command) (cla_found : Bool)
    → IsLookup ds cmd (lookup ds cmd cla_found)
unfolding lookup
lookup-IsLookup [] cmd true = tt
lookup-IsLookup [] cmd false = tt
lookup-IsLookup (e ∷ es) cmd flag = elim (Bool-cases (e.cla == cmd.cla)) [
  | inl c ↦ elim (Bool-cases (e.ins == cmd.ins)) [
    | inl i ↦
        rw (c, i)
          ([], e, es, refl, ((==_iff e.cla cmd.cla).0 c, (==_iff e.ins cmd.ins).0 i), refl, tt)
    | inr i ↦
        rw (c, i)
          (skip_descriptor e es cmd (lookup es cmd true) (λ same. ==-false e.ins cmd.ins i same.1)
            (λ none_yet. absurd (lookup_cla_found es cmd none_yet)) (lookup-IsLookup es cmd true))
  ]
  | inr c ↦ rw c (
      skip_descriptor e es cmd (lookup es cmd flag) (λ same. ==-false e.cla cmd.cla c same.0)
        (λ _. ==-false e.cla cmd.cla c) (lookup-IsLookup es cmd flag))
]

-- Without a descriptor of the class, the loop says so.
pub lookup_no_cla :
    (ds : List CommandDescriptor) (cmd : Command)
    → All (λ e. e.cla ≢ cmd.cla) ds
    → lookup ds cmd false ≡ no_cla
unfolding lookup
lookup_no_cla [] cmd h = refl
lookup_no_cla (e ∷ es) cmd h =
    let other = ne→== e.cla cmd.cla h.0 in rw other (lookup_no_cla es cmd h.1)
