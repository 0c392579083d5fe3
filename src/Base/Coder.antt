-- ===== src/Base/Coder.antt =====
-- Writers to text with their readers, for the tests that need some serialisation of a record.
use mathlib.Core.List.{List, [], ◌∷◌, ◌++◌}
use mu5250_wireguard.Base.{
  ℕ, zero, suc, ◌≡◌, refl, ap, Bool, true, false, Option, none, some, Text, length,
}

pub record Coder (A : Type 0) : Type 0 where
  pub write : A → Text
  pub read : Text → Option (A × Text)
  pub again : (a : A) (r : Text) → read (write a ++ r) ≡ some (a, r)

assoc : (a b c : Text) → (a ++ b) ++ c ≡ a ++ (b ++ c)
assoc [] b c = refl
assoc (x ∷ a) b c = ap (λ (t : Text). x ∷ t) (assoc a b c)

read_nat : Text → Option (ℕ × Text)
read_nat [] = none
read_nat (n ∷ r) = some (n, r)

pub nat_coder : Coder ℕ
unfolding read_nat
nat_coder = record { write = λ n. n ∷ []; read = read_nat; again = λ n r. refl }

module _ {A B : Type 0} where
  abbrev with_first : A → Option (B × Text) → Option ((A × B) × Text)
  with_first a none = none
  with_first a (some (b, s)) = some ((a, b), s)

  abbrev then_read : (Text → Option (B × Text)) → Option (A × Text) → Option ((A × B) × Text)
  then_read f none = none
  then_read f (some (a, r)) = with_first a (f r)

  pub pair_coder : Coder A → Coder B → Coder (A × B)
  pair_coder c d = record {
    write = λ p. c.write p.0 ++ d.write p.1;
    read = λ t. then_read d.read (c.read t);
    again = λ p r.
        rw (assoc (c.write p.0) (d.write p.1) r, c.again p.0 (d.write p.1 ++ r))
          (ap (with_first p.0) (d.again p.1 r));
  }

  abbrev mapped : (B → A) → Option (B × Text) → Option (A × Text)
  mapped g none = none
  mapped g (some (b, r)) = some (g b, r)

  -- A type that another type holds.
  pub via_coder : (f : A → B) (g : B → A) → ((a : A) → g (f a) ≡ a) → Coder B → Coder A
  via_coder f g h c = record {
    write = λ a. c.write (f a);
    read = λ t. mapped g (c.read t);
    again = λ a r. rw (c.again (f a) r, h a) refl;
  }

module _ {A : Type 0} (c : Coder A) where
  write_all : List A → Text
  write_all [] = []
  write_all (x ∷ xs) = c.write x ++ write_all xs

  abbrev grow : A → Option (List A × Text) → Option (List A × Text)
  grow a none = none
  grow a (some (xs, r)) = some (a ∷ xs, r)

  read_all : ℕ → Text → Option (List A × Text)
  read_all zero t = some ([], t)
  read_all (suc n) t = elim (c.read t) [ none ↦ none | some (a, r) ↦ grow a (read_all n r) ]

  read_counted : Text → Option (List A × Text)
  unfolding read_all
  read_counted [] = none
  read_counted (n ∷ t) = read_all n t

  all_again : (xs : List A) (r : Text) → read_all (length xs) (write_all xs ++ r) ≡ some (xs, r)
  unfolding write_all read_all
  all_again [] r = refl
  all_again (x ∷ xs) r =
      rw (assoc (c.write x) (write_all xs) r, c.again x (write_all xs ++ r), all_again xs r) refl

  pub list_coder : Coder (List A)
  unfolding read_counted
  list_coder = record {
    write = λ xs. length xs ∷ write_all xs;
    read = read_counted;
    again = λ xs r. all_again xs r;
  }

module _ {A : Type 0} where
  abbrev to_list : Option A → List A
  to_list none = []
  to_list (some a) = a ∷ []

  abbrev of_list : List A → Option A
  of_list [] = none
  of_list (a ∷ as_) = some a

  list_again : (o : Option A) → of_list (to_list o) ≡ o
  list_again none = refl
  list_again (some a) = refl

  pub option_coder : Coder A → Coder (Option A)
  option_coder c = via_coder to_list of_list list_again (list_coder c)

abbrev to_nat : Bool → ℕ
to_nat false = 0
to_nat true = 1

abbrev of_nat : ℕ → Bool
of_nat zero = false
of_nat (suc n) = true

nat_again : (b : Bool) → of_nat (to_nat b) ≡ b
nat_again true = refl
nat_again false = refl

pub bool_coder : Coder Bool
bool_coder = via_coder to_nat of_nat nat_again nat_coder

pub text_coder : Coder Text
text_coder = list_coder nat_coder

-- The value that is all of a text.
abbrev pub whole {ℓ} : {A : Type ℓ} → Option (A × Text) → Option A
whole none = none
whole (some (a, r)) = some a
