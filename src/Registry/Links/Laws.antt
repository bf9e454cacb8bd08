-- ===== src/Registry/Links/Laws.antt =====
-- What the three steps do to the pairs (key, value) that a dict of lists holds.
use qmtl.Base.{
  String, List, [], ◌∷◌, ◌++◌, Bool, true, false, not, ◌&&◌, ◌||◌, ◌≡◌, refl, ◌==◌, if◌then◌else◌,
  insert, has_key, contains, remove, Nodup, Nodup-remove, Nodup-snoc, contains-append,
  contains-remove_self, contains-remove_ne, lookup-insert, lookup-erase, arith, eq_iff, Bool-cases,
  inl, inr, subst, sym,
}
use qmtl.Registry.Links.{Links, at, link, unlink, unlink_all}

-- No list holds a value twice.
abbrev pub IsNodup : Links → Type 0
IsNodup m = (k : String) → Nodup (at k m)

at-insert :
    (k j : String) (xs : List String) (m : Links)
    → at j (insert k xs m) ≡ (if k == j then xs else at j m)
at-insert k j xs m = ground (arith, lookup-insert k j xs m)

contains-remove :
    (x y : String) (xs : List String)
    → Nodup xs
    → contains y (remove x xs) ≡ (contains y xs && not (x == y))
contains-remove x y xs n = elim (Bool-cases (x == y)) [
  | inl same ↦
      let e : x ≡ y = (eq_iff x y).0 same in
      ground (arith, subst (λ z. contains z (remove x xs) ≡ false) e (contains-remove_self x xs n))
  | inr other ↦ ground (arith, contains-remove_ne x y xs other)
]

pub at-link :
    (k v j : String) (m : Links)
    → at j (link k v m)
      ≡ (if k == j then (if contains v (at k m) then at k m else at k m ++ v ∷ []) else at j m)
unfolding link
at-link k v j m = ground (
  arith,
  at-insert k j (at k m ++ v ∷ []) m,
  at-insert k k [] m,
  at-insert k j [] m,
  at-insert k j (at k (insert k [] m) ++ v ∷ []) (insert k [] m),
  eq_iff k j,
  eq_iff k k,
)

pub contains-link :
    (k v j w : String) (m : Links)
    → contains w (at j (link k v m)) ≡ (contains w (at j m) || ((k == j) && (v == w)))
contains-link k v j w m =
    ground (arith, at-link k v j m, contains-append w (at k m) (v ∷ []), eq_iff k j, eq_iff v w)

Nodup-if :
    (b : Bool) (xs ys : List String)
    → (b ≡ true → Nodup xs)
    → (b ≡ false → Nodup ys)
    → Nodup (if b then xs else ys)
Nodup-if true xs ys h k = h refl
Nodup-if false xs ys h k = k refl

pub link-IsNodup : (k v : String) (m : Links) → IsNodup m → IsNodup (link k v m)
link-IsNodup k v m n j = subst Nodup (sym (at-link k v j m)) (
    Nodup-if (k == j) _ _
      (λ _. Nodup-if (contains v (at k m)) _ _ (λ _. n k) (λ new. Nodup-snoc v (at k m) new (n k)))
      (λ _. n j))

remove-absent : (x : String) (xs : List String) → contains x xs ≡ false → remove x xs ≡ xs
remove-absent x [] h = refl
remove-absent x (y ∷ xs) h = ground (arith, remove-absent x xs)

-- One removal, however the code writes it.
pub Removes : String → String → Links → Links → Type 0
Removes k v m m' = (j : String) → at j m' ≡ (if k == j then remove v (at k m) else at j m)

pub unlink-Removes : (k v : String) (m : Links) → Removes k v m (unlink k v m)
unfolding Removes unlink
unlink-Removes k v m j = ground (
  arith,
  lookup-insert k j (remove v (at k m)) m,
  lookup-erase k j (insert k (remove v (at k m)) m),
  remove-absent v (at k m),
  eq_iff k j,
)

abbrev remove_one : String → String → Links → Links
remove_one k v m = if has_key k m && contains v (at k m) then insert k (remove v (at k m)) m else m

remove_one-Removes : (k v : String) (m : Links) → Removes k v m (remove_one k v m)
unfolding Removes
remove_one-Removes k v m j =
    ground (arith, lookup-insert k j (remove v (at k m)) m, remove-absent v (at k m), eq_iff k j)

module _ (k v : String) (m m' : Links) (n : IsNodup m) (r : Removes k v m m') where
  Removes-IsNodup : IsNodup m'
  unfolding Removes
  Removes-IsNodup j =
      subst Nodup (sym (r j))
        (Nodup-if (k == j) _ _ (λ _. Nodup-remove v (at k m) (n k)) (λ _. n j))

  contains-Removes :
      (j w : String) → contains w (at j m') ≡ (contains w (at j m) && not ((k == j) && (v == w)))
  unfolding Removes
  contains-Removes j w = ground (arith, r j, contains-remove v w (at k m) (n k), eq_iff k j)

pub unlink-IsNodup : (k v : String) (m : Links) → IsNodup m → IsNodup (unlink k v m)
unlink-IsNodup k v m n = Removes-IsNodup k v m (unlink k v m) n (unlink-Removes k v m)

pub contains-unlink :
    (k v j w : String) (m : Links)
    → IsNodup m
    → contains w (at j (unlink k v m)) ≡ (contains w (at j m) && not ((k == j) && (v == w)))
contains-unlink k v j w m n = contains-Removes k v m (unlink k v m) n (unlink-Removes k v m) j w

pub unlink_all-IsNodup :
    (v : String) (ks : List String) (m : Links) → IsNodup m → IsNodup (unlink_all v ks m)
unfolding unlink_all
unlink_all-IsNodup v [] m n = n
unlink_all-IsNodup v (k ∷ ks) m n =
    unlink_all-IsNodup v ks (remove_one k v m)
      (Removes-IsNodup k v m (remove_one k v m) n (remove_one-Removes k v m))

pub contains-unlink_all :
    (v : String) (ks : List String) (j w : String) (m : Links)
    → IsNodup m
    → contains w (at j (unlink_all v ks m))
      ≡ (contains w (at j m) && not ((v == w) && contains j ks))
unfolding unlink_all
contains-unlink_all v [] j w m n = ground arith
contains-unlink_all v (k ∷ ks) j w m n =
    let m' = remove_one k v m in
    let r = remove_one-Removes k v m in
    ground (
      arith,
      contains-unlink_all v ks j w m' (Removes-IsNodup k v m m' n r),
      contains-Removes k v m m' n r j w,
    )
