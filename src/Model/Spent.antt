-- ===== src/Model/Spent.antt =====
-- The nullifiers that a list of transactions publishes, and the set that the loop of
-- contracts/rust/src/model.rs builds from them.
use cape.Base.{
  ◌≡◌, refl, true, false, ◌||◌, List, [], ◌∷◌, ◌++◌, arith, ok, Ensures, nat_eq, nat_beq_iff,
}
use cape.Base.Fresh.{contains, Distinct, FreshFor}
use cape.Cap.{Nullifier}
use cape.Model.Types.{CapeModelTxn}
use cape.Model.Notes.{nullifiers}
use cape.Model.Block.{insert_nullifiers}

-- The set after all of the list has been inserted, one after the other.
abbrev pub insert_all : List Nullifier → List Nullifier → List Nullifier
insert_all [] spent = spent
insert_all (n ∷ ns) spent = insert_all ns (n ∷ spent)

-- What a list of transactions spends, in order.
abbrev pub spent_by : List CapeModelTxn → List Nullifier
spent_by [] = []
spent_by (t ∷ ts) = nullifiers t ++ spent_by ts

pub insert_all-append :
    (xs ys spent : List Nullifier)
    → insert_all (xs ++ ys) spent ≡ insert_all ys (insert_all xs spent)
insert_all-append [] ys spent = refl
insert_all-append (x ∷ xs) ys spent = insert_all-append xs ys (x ∷ spent)

pub contains-insert_all :
    (xs spent : List Nullifier) (n : Nullifier)
    → contains (insert_all xs spent) n ≡ contains xs n || contains spent n
contains-insert_all [] spent n = refl
contains-insert_all (x ∷ xs) spent n = ground (arith, contains-insert_all xs (x ∷ spent) n)

pub FreshFor-append :
    (xs ys spent : List Nullifier)
    → FreshFor spent xs
    → FreshFor (insert_all xs spent) ys
    → FreshFor spent (xs ++ ys)
FreshFor-append [] ys spent h k = k
FreshFor-append (x ∷ xs) ys spent h k = (h.0, FreshFor-append xs ys (x ∷ spent) h.1 k)

-- What is fresh for a set is not in it.
contains_of_FreshFor :
    (xs spent : List Nullifier) (n : Nullifier)
    → FreshFor spent xs
    → contains spent n ≡ true
    → contains xs n ≡ false
contains_of_FreshFor [] spent n h k = refl
contains_of_FreshFor (x ∷ xs) spent n h k =
    ground (arith, contains_of_FreshFor xs (x ∷ spent) n h.1, nat_beq_iff n x)

pub FreshFor-Distinct : (xs spent : List Nullifier) → FreshFor spent xs → Distinct xs
FreshFor-Distinct [] spent h = tt
FreshFor-Distinct (x ∷ xs) spent h = (
  contains_of_FreshFor xs (x ∷ spent) x h.1 (ground (arith, nat_beq_iff x x)),
  FreshFor-Distinct xs (x ∷ spent) h.1,
)

-- The loop succeeds only on nullifiers that are fresh one after the other, and adds them all.
pub insert_nullifiers_lem :
    (ns spent : List Nullifier)
    → Ensures (λ r. FreshFor spent ns × (r ≡ insert_all ns spent)) (insert_nullifiers ns spent)
unfolding insert_nullifiers
insert_nullifiers_lem [] spent = (tt, refl)
insert_nullifiers_lem (n ∷ ns) spent = ground (arith, insert_nullifiers_lem ns (n ∷ spent))

-- And on those it does succeed.
pub insert_nullifiers_of_FreshFor :
    (ns spent : List Nullifier)
    → FreshFor spent ns
    → insert_nullifiers ns spent ≡ ok (insert_all ns spent)
unfolding insert_nullifiers
insert_nullifiers_of_FreshFor [] spent h = refl
insert_nullifiers_of_FreshFor (n ∷ ns) spent h =
    ground (arith, insert_nullifiers_of_FreshFor ns (n ∷ spent) h.1)

pub FreshFor-append-left :
    (xs ys spent : List Nullifier) → FreshFor spent (xs ++ ys) → FreshFor spent xs
FreshFor-append-left [] ys spent h = tt
FreshFor-append-left (x ∷ xs) ys spent h = (h.0, FreshFor-append-left xs ys (x ∷ spent) h.1)

pub FreshFor-append-right :
    (xs ys spent : List Nullifier) → FreshFor spent (xs ++ ys) → FreshFor (insert_all xs spent) ys
FreshFor-append-right [] ys spent h = h
FreshFor-append-right (x ∷ xs) ys spent h = FreshFor-append-right xs ys (x ∷ spent) h.1
