-- ===== src/Edge/Routes/Sets.antt =====
-- What `makeHostSet`, `makePathSet` and `cleanPathList` hold.
use myzerossl.Prelude.{
  Bool, true, false, ◌||◌, ◌≡◌, ◌≢◌, inl, inr, refl, ap, ◌∙◌, List, [], ◌∷◌, arith, map, is_empty,
  Bool-cases,
}
use myzerossl.Text.{Text, same, trim_space, to_lower, Text-discrete}
use myzerossl.Map.{member, add}
use myzerossl.Map.Laws.{member-add}
use myzerossl.Edge.Routes.{
  add_host, make_host_set_from, make_host_set, clean_path_list, make_path_set_from, make_path_set,
}

-- The first list has no empty text, and every other text exactly if the second has it.
abbrev pub HoldsFilled : List Text → List Text → Type 0
HoldsFilled s t = (member [] s ≡ false) × ((k : Text) → k ≢ [] → member k s ≡ member k t)

or_false : (b : Bool) → (b || false) ≡ b
or_false b = ground arith

blank_differs : (s k : Text) → is_empty s ≡ true → k ≢ [] → same s k ≡ false
blank_differs [] [] e n = absurd (n refl)
blank_differs [] (c ∷ k) e n = unfold Text-discrete in refl
blank_differs (c ∷ s) k e n = cc

add_host-member :
    (value : Text) (seen : List Text) (k : Text)
    → k ≢ []
    → member k (add_host value seen) ≡ (same (to_lower (trim_space value)) k || member k seen)
unfolding add_host
add_host-member value seen k n =
    let name = to_lower (trim_space value) in
    elim (Bool-cases (is_empty name)) [
      | inl e ↦ rw (e, blank_differs name k e n)
      | inr e ↦ rw e (member-add name k seen)
    ]

make_host_set_from-member :
    (values seen : List Text) (k : Text)
    → k ≢ []
    → member k (make_host_set_from values seen)
      ≡ (member k (map (λ v. to_lower (trim_space v)) values) || member k seen)
unfolding make_host_set_from member
make_host_set_from-member [] seen k n = refl
make_host_set_from-member (value ∷ values) seen k n = ground (
  arith,
  make_host_set_from-member values (add_host value seen) k n,
  add_host-member value seen k n,
)

make_path_set_from-member :
    (values seen : List Text) (k : Text)
    → member k (make_path_set_from values seen) ≡ (member k values || member k seen)
unfolding make_path_set_from member
make_path_set_from-member [] seen k = refl
make_path_set_from-member (value ∷ values) seen k =
    ground (arith, make_path_set_from-member values (add value seen) k, member-add value k seen)

clean_path_list-member :
    (values : List Text) (k : Text)
    → k ≢ []
    → member k (clean_path_list values) ≡ member k (map trim_space values)
unfolding clean_path_list member
clean_path_list-member [] k n = refl
clean_path_list-member (value ∷ values) k n =
    let path = trim_space value in
    elim (Bool-cases (is_empty path)) [
      | inl e ↦ rw (e, blank_differs path k e n) (clean_path_list-member values k n)
      | inr e ↦ rw e (ap (λ b. same path k || b) (clean_path_list-member values k n))
    ]

filled_differs : (s : Text) → is_empty s ≡ false → same s [] ≡ false
filled_differs [] e = cc
filled_differs (c ∷ s) e = unfold Text-discrete in refl

clean_path_list-filled : (values : List Text) → member [] (clean_path_list values) ≡ false
unfolding clean_path_list member
clean_path_list-filled [] = refl
clean_path_list-filled (value ∷ values) =
    let path = trim_space value in
    elim (Bool-cases (is_empty path)) [
      | inl e ↦ rw e (clean_path_list-filled values)
      | inr e ↦ rw (e, filled_differs path e) (clean_path_list-filled values)
    ]

add_host-filled :
    (value : Text) (seen : List Text)
    → member [] seen ≡ false
    → member [] (add_host value seen) ≡ false
unfolding add_host
add_host-filled value seen h =
    let name = to_lower (trim_space value) in
    elim (Bool-cases (is_empty name)) [
      | inl e ↦ rw e h
      | inr e ↦ rw e (member-add name [] seen ∙ rw (filled_differs name e) h)
    ]

make_host_set_from-filled :
    (values seen : List Text)
    → member [] seen ≡ false
    → member [] (make_host_set_from values seen) ≡ false
unfolding make_host_set_from
make_host_set_from-filled [] seen h = h
make_host_set_from-filled (value ∷ values) seen h =
    make_host_set_from-filled values (add_host value seen) (add_host-filled value seen h)

pub make_host_set-HoldsFilled :
    (values : List Text)
    → HoldsFilled (make_host_set values) (map (λ v. to_lower (trim_space v)) values)
unfolding make_host_set member
make_host_set-HoldsFilled values = (
  make_host_set_from-filled values [] refl,
  λ k n.
      make_host_set_from-member values [] k n
      ∙ or_false (member k (map (λ v. to_lower (trim_space v)) values)),
)

pub clean_path_list-HoldsFilled :
    (values : List Text) → HoldsFilled (clean_path_list values) (map trim_space values)
clean_path_list-HoldsFilled values = (clean_path_list-filled values, clean_path_list-member values)

make_path_set-member :
    (paths : List Text) (k : Text)
    → member k (make_path_set paths) ≡ member k (clean_path_list paths)
unfolding make_path_set member
make_path_set-member paths k =
    make_path_set_from-member (clean_path_list paths) [] k
    ∙ or_false (member k (clean_path_list paths))

pub make_path_set-HoldsFilled :
    (values : List Text) → HoldsFilled (make_path_set values) (map trim_space values)
make_path_set-HoldsFilled values = (
  make_path_set-member values [] ∙ clean_path_list-filled values,
  λ k n. make_path_set-member values k ∙ clean_path_list-member values k n,
)
