-- ===== src/Channel/Router/Agents.antt =====
-- Lists of agents: the ones collected by `broadcast_route`, without repeats.
use claw_kernel.Prelude.{
  ◌≡◌, refl, sym, ◌∙◌, Bool, true, false, ◌||◌, Option, none, some, List, [], ◌∷◌, ◌++◌, String,
  if◌then◌else◌, str_eq, str_eq_iff, last?, arith, inl, inr, Bool-cases,
}
use claw_kernel.Channel.Router.{contains}

abbrev pub head? : List String → Option String
head? [] = none
head? (a ∷ rest) = some a

abbrev pub or_else : Option String → Option String → Option String
or_else none d = d
or_else (some a) d = some a

abbrev pub to_list : Option String → List String
to_list none = []
to_list (some a) = a ∷ []

abbrev pub nonempty : List String → Bool
nonempty [] = false
nonempty (a ∷ rest) = true

pub last?-cons :
    (a : String) (rest : List String) (d : Option String)
    → or_else (last? (a ∷ rest)) d ≡ or_else (last? rest) (some a)
last?-cons a [] d = refl
last?-cons a (b ∷ rest) d = last?-cons b rest d ∙ sym (last?-cons b rest (some a))

-- `agents` with those of a list that are not there yet, in order.
unfoldable pub add_all : List String → List String → List String
add_all agents [] = agents
add_all agents (a ∷ rest) = add_all (if contains agents a then agents else agents ++ a ∷ []) rest

abbrev pub NoRepeat : List String → Type 0
NoRepeat [] = Unit {0}
NoRepeat (a ∷ rest) = (contains rest a ≡ false) × NoRepeat rest

abbrev pub finish : List String → Bool → Option String → List String
finish agents true d = agents
finish agents false none = agents
finish agents false (some a) = agents ++ a ∷ []

pub or_true : (b : Bool) → (b || true) ≡ true
or_true true = refl
or_true false = refl

contains-snoc :
    (xs : List String) (y a : String) → contains (xs ++ y ∷ []) a ≡ (contains xs a || str_eq y a)
contains-snoc [] y a = ground arith
contains-snoc (x ∷ xs) y a = ground (arith, contains-snoc xs y a)

NoRepeat-snoc :
    (xs : List String) (y : String) → NoRepeat xs → contains xs y ≡ false → NoRepeat (xs ++ y ∷ [])
NoRepeat-snoc [] y n h = (refl, tt)
NoRepeat-snoc (x ∷ xs) y n h = (
  ground (arith, contains-snoc xs y x, str_eq_iff x y, str_eq_iff y x),
  NoRepeat-snoc xs y n.1 (ground arith),
)

pub contains-add_all :
    (agents more : List String) (a : String)
    → contains (add_all agents more) a ≡ (contains agents a || contains more a)
unfolding add_all
contains-add_all agents [] a = ground arith
contains-add_all agents (x ∷ more) a = elim (Bool-cases (contains agents x)) [
  | inl old ↦ rw old (ground (arith, contains-add_all agents more a, str_eq_iff x a))
  | inr new ↦
      rw new (ground (arith, contains-add_all (agents ++ x ∷ []) more a, contains-snoc agents x a))
]

pub add_all-NoRepeat :
    (agents more : List String) → NoRepeat agents → NoRepeat (add_all agents more)
unfolding add_all
add_all-NoRepeat agents [] n = n
add_all-NoRepeat agents (x ∷ more) n = elim (Bool-cases (contains agents x)) [
  | inl old ↦ rw old (add_all-NoRepeat agents more n)
  | inr new ↦ rw new (add_all-NoRepeat (agents ++ x ∷ []) more (NoRepeat-snoc agents x n new))
]

head?-add_all_cons : (x : String) (xs more : List String) → head? (add_all (x ∷ xs) more) ≡ some x
unfolding add_all
head?-add_all_cons x xs [] = refl
head?-add_all_cons x xs (y ∷ more) = elim (Bool-cases (contains (x ∷ xs) y)) [
  | inl old ↦ rw old (head?-add_all_cons x xs more)
  | inr new ↦ rw new (head?-add_all_cons x (xs ++ y ∷ []) more)
]

pub head?-add_all : (more : List String) → head? (add_all [] more) ≡ head? more
unfolding add_all
head?-add_all [] = refl
head?-add_all (y ∷ more) = head?-add_all_cons y [] more
