-- ===== src/Licensing/Ids.antt =====
-- The ids of licences and renewals: the licences in memory keep them distinct.
use operations_api.Common.{
  ℕ, ◌<◌, ◌≡◌, refl, sym, ap, subst, Option, none, some, List, [], ◌∷◌, ◌++◌, map, Text, arith, In,
  In-append, inl, inr,
}
use operations_api.Licensing.{Licence, LicensingData}
use operations_api.Licensing.Fallback.{
  id_of, renewal_id_of, next_id, if_found, change_at, remove_at, find_licence, patched_licence,
  added_licence, mark_renewed, LicencePayload, LicenceFields, fallback_add, fallback_patch,
  fallback_renew, fallback_delete,
}

abbrev pub AreDistinct : List ℕ → Type 0
AreDistinct [] = Unit
AreDistinct (n ∷ ns) = ¬ In n ns × AreDistinct ns

pub record HasIds (d : LicensingData) : Type 0 where
  pub licences : AreDistinct (map id_of d.licences)
  pub renewals : AreDistinct (map renewal_id_of d.renewals)

pub next_id-bound : (n : ℕ) (ns : List ℕ) → In n ns → n < next_id ns
unfolding next_id
next_id-bound n [] i = elim i [ ]
next_id-bound n (m ∷ ms) (inl e) = omega (arith, e)
next_id-bound n (m ∷ ms) (inr i) = omega (arith, next_id-bound n ms i)

-- A new id added at the end.
AreDistinct-snoc : (n : ℕ) (ns : List ℕ) → ¬ In n ns → AreDistinct ns → AreDistinct (ns ++ n ∷ [])
AreDistinct-snoc n [] h v = (λ i. i, tt)
AreDistinct-snoc n (m ∷ ms) h (w, v) = (
  λ i. elim ((In-append m ms (n ∷ [])).0 i) [
    | inl j ↦ w j
    | inr j ↦ elim j [ inl e ↦ h (inl (sym e)) | inr k ↦ k ]
  ],
  AreDistinct-snoc n ms (λ i. h (inr i)) v,
)

map-snoc :
    {A : Type 0} (f : A → ℕ) (xs : List A) (x : A) → map f (xs ++ x ∷ []) ≡ map f xs ++ f x ∷ []
map-snoc f [] x = refl
map-snoc f (y ∷ ys) x = ap (λ ns. f y ∷ ns) (map-snoc f ys x)

add-AreDistinct :
    {A : Type 0} (f : A → ℕ) (xs : List A) (x : A)
    → f x ≡ next_id (map f xs)
    → AreDistinct (map f xs)
    → AreDistinct (map f (xs ++ x ∷ []))
add-AreDistinct f xs x e v = subst AreDistinct (sym (map-snoc f xs x)) (
    AreDistinct-snoc (f x) (map f xs)
      (λ i. absurd (let lt = next_id-bound (f x) (map f xs) i in omega (arith, e))) v)

change_at-ids :
    (id : ℕ) (f : Licence → Licence) (ls : List Licence)
    → ((l : Licence) → id_of (f l) ≡ id_of l)
    → map id_of (change_at id f ls) ≡ map id_of ls
unfolding change_at
change_at-ids id f [] h = refl
change_at-ids id f (l ∷ ls) h = ground (arith, change_at-ids id f ls h, h l)

In-remove_at :
    (n id : ℕ) (ls : List Licence) → In n (map id_of (remove_at id ls)) → In n (map id_of ls)
unfolding remove_at
In-remove_at n id [] i = i
In-remove_at n id (l ∷ ls) i = ground (arith, In-remove_at n id ls)

remove_at-AreDistinct :
    (id : ℕ) (ls : List Licence)
    → AreDistinct (map id_of ls)
    → AreDistinct (map id_of (remove_at id ls))
unfolding remove_at
remove_at-AreDistinct id [] v = v
remove_at-AreDistinct id (l ∷ ls) (w, v) =
    ground (arith, remove_at-AreDistinct id ls v, In-remove_at (id_of l) id ls)

mark_renewed-HasIds :
    (today : Text) (l : Licence) (expiry notes : Text) (d : LicensingData)
    → HasIds d
    → HasIds (mark_renewed today l expiry notes d)
unfolding mark_renewed
mark_renewed-HasIds today l expiry notes d v = record {
  licences =
      subst AreDistinct (sym (change_at-ids l.licence_id _ d.licences (λ x. refl))) v.licences;
  renewals = add-AreDistinct renewal_id_of d.renewals _ refl v.renewals;
}

-- What the fallback of an action leaves, where it does anything.
unfoldable pub AllIds : Option LicensingData → Type 0
AllIds none = Unit
AllIds (some d) = HasIds d

pub fallback_add-HasIds :
    (p : LicencePayload) (d : LicensingData) → HasIds d → HasIds (fallback_add p d)
unfolding fallback_add added_licence
fallback_add-HasIds p d v = record {
  licences = add-AreDistinct id_of d.licences _ refl v.licences;
  renewals = v.renewals;
}

pub if_found-HasIds :
    (f : Licence → LicensingData) (o : Option Licence)
    → ((l : Licence) → HasIds (f l))
    → AllIds (if_found f o)
unfolding if_found AllIds
if_found-HasIds f none h = tt
if_found-HasIds f (some l) h = h l

pub fallback_patch-HasIds :
    (id : ℕ) (f : LicenceFields) (d : LicensingData) → HasIds d → AllIds (fallback_patch id f d)
unfolding fallback_patch patched_licence
fallback_patch-HasIds id f d v = if_found-HasIds _ (find_licence id d.licences) λ l. record {
  licences = subst AreDistinct (sym (change_at-ids id _ d.licences (λ x. refl))) v.licences;
  renewals = v.renewals;
}

pub fallback_renew-HasIds :
    (today : Text) (id : ℕ) (expiry notes : Text) (d : LicensingData)
    → HasIds d
    → AllIds (fallback_renew today id expiry notes d)
unfolding fallback_renew
fallback_renew-HasIds today id expiry notes d v =
    if_found-HasIds _ (find_licence id d.licences)
      (λ l. mark_renewed-HasIds today l expiry notes d v)

pub fallback_delete-HasIds : (id : ℕ) (d : LicensingData) → HasIds d → AllIds (fallback_delete id d)
unfolding fallback_delete
fallback_delete-HasIds id d v =
    if_found-HasIds _ (find_licence id d.licences) λ l. record {
      licences = remove_at-AreDistinct id d.licences v.licences;
      renewals = v.renewals;
    }
