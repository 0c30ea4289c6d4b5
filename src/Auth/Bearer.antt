-- ===== src/Auth/Bearer.antt =====
-- Who gets past the token.
use mathlib.Core.Bool.{false≢true}
use gomc_rest.Common.{
  ℕ, suc, ◌≤◌, ◌≡◌, ◌⊎◌, inl, inr, refl, sym, ap, ◌∙◌, arith, true, false, [], ◌∷◌, ◌++◌, take,
  drop, length, length-append, Bool-cases,
}
use gomc_rest.Common.Text.{Text, codes, to_lower, text_eq, text_eq_iff}
use gomc_rest.Http.{Request, Response}
use gomc_rest.Auth.{scheme, is_exempt, token_matches, unauthorized, require_token}

-- A header that is the scheme, in any case, with the token behind it.
abbrev pub IsBearer : Text → Text → Type 0
IsBearer header token = (s : Text) × (to_lower s ≡ to_lower scheme) × (header ≡ s ++ token)

take-drop : (n : ℕ) (xs : Text) → xs ≡ take n xs ++ drop n xs
take-drop ℕ.zero xs = refl
take-drop (suc n) [] = refl
take-drop (suc n) (x ∷ xs) = ap (λ t. x ∷ t) (take-drop n xs)

length-to_lower : (s : Text) → length (to_lower s) ≡ length s
unfolding to_lower
length-to_lower [] = refl
length-to_lower (c ∷ s) = ap suc (length-to_lower s)

take_append : (xs ys : Text) → take (length xs) (xs ++ ys) ≡ xs
take_append [] ys = refl
take_append (x ∷ xs) ys = ap (λ t. x ∷ t) (take_append xs ys)

drop_append : (xs ys : Text) → drop (length xs) (xs ++ ys) ≡ ys
drop_append [] ys = refl
drop_append (x ∷ xs) ys = drop_append xs ys

token_matches-IsBearer :
    (header token : Text) → token_matches header token ≡ true → IsBearer header token
unfolding token_matches
token_matches-IsBearer header token e =
    let head = take (length scheme) header in
    let same_scheme = (text_eq_iff (to_lower head) (to_lower scheme)).0 in
    let same_token = (text_eq_iff (drop (length scheme) header) token).0 in
    (
      head,
      ground (arith, same_scheme),
      take-drop 7 header ∙ ap (λ t. head ++ t) (ground (arith, same_token)),
    )

IsBearer-token_matches :
    (s token : Text)
    → 1 ≤ length token
    → to_lower s ≡ to_lower scheme
    → token_matches (s ++ token) token ≡ true
unfolding token_matches
IsBearer-token_matches s token h e =
    let size : length s ≡ 7 = sym (length-to_lower s) ∙ ap length e ∙ length-to_lower scheme in
    let long = length-append s token in
    let front = rw size at (take_append s token) in
    let back = rw size at (drop_append s token) in
    let same = (text_eq_iff (to_lower s) (to_lower scheme)).1 e in
    let exact = (text_eq_iff token token).1 refl in
    rw (front, back, same, exact) (ground (arith, long, size))

text_pos : (t : Text) → text_eq t [] ≡ false → 1 ≤ length t
unfolding text_eq
text_pos [] e = absurd (ground arith)
text_pos (c ∷ t) e = ground arith

-- With a token set, a request for a path that is not exempt reaches the handler, as it is, if its
-- Authorization header is the scheme "Bearer ", in upper or lower case, and exactly the token; any
-- other request is answered with 401, and the handler and its state are not touched.
pub require_token-gate :
    {Q : Type 0} (h : Request → Q → Response × Q) (token : Text) (r : Request) (q : Q)
    → text_eq token [] ≡ false
    → is_exempt r.path ≡ false
    → (IsBearer (codes r.authorization) token × (require_token h token r q ≡ h r q))
      ⊎ ((¬ IsBearer (codes r.authorization) token)
          × (require_token h token r q ≡ (unauthorized, q)))
unfolding require_token
require_token-gate h token r q set closed =
    elim (Bool-cases (token_matches (codes r.authorization) token)) [
      | inl match ↦
          inl (
            token_matches-IsBearer (codes r.authorization) token match,
            rw (set, closed, match) refl,
          )
      | inr other ↦ inr (
        λ (s, case, whole).
            let match : token_matches (codes r.authorization) token ≡ true =
              ap (λ t. token_matches t token) whole
              ∙ IsBearer-token_matches s token (text_pos token set) case in
            false≢true (sym other ∙ match),
        rw (set, closed, other) refl,
      )
    ]
