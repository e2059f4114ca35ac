-- ===== src/Router/Access.antt =====
-- Which requests the API key lets through.
use Prim.Native.String.{len, slice, ◌++◌ as join}
use text.Mathlib.Text.{starts_with}
use text.Mathlib.TextEquality.{starts_with_iff}
use text.Mathlib.TextPositions.{len-append, slice-append_right, starts_with-append}
use chronos_monitor.Prelude.{
  String, str_eq, eq_iff, eq_refl, ◌≡◌, ◌≢◌, ◌⊎◌, ◌↔◌, refl, sym, inl, inr, ap, ◌∙◌, Option, none,
  some, Bool, true, false, arith, Bool-cases,
}
use chronos_monitor.Clock.{Time}
use chronos_monitor.Server.{Server}
use chronos_monitor.System.{Request, serve}
use chronos_monitor.Router.{
  bearer_token, constant_time_equal, require_api_key, unauthorized, handle,
}

pub equal_iff : (a b : String) → (constant_time_equal a b ≡ true) ↔ (a ≡ b)
unfolding constant_time_equal
equal_iff a b = (λ h. (eq_iff a b).0 (ground arith), λ e. rw e (ground (arith, eq_refl b)))

cut : (prefix rest : String) → slice (join prefix rest) (len prefix) (len (join prefix rest)) ≡ rest
cut prefix rest = rw (len-append prefix rest) (slice-append_right prefix rest)

pub bearer_of_prefix : (key token : String) → bearer_token (join "Bearer " key) token ≡ key
unfolding bearer_token
bearer_of_prefix key token = rw (starts_with-append "Bearer " key) (cut "Bearer " key)

bearer_of_none :
    (authorization token : String)
    → starts_with authorization "Bearer " ≡ false
    → bearer_token authorization token ≡ token
unfolding bearer_token
bearer_of_none authorization token h = rw h refl

pub accepts_iff :
    (key authorization token : String)
    → key ≢ ""
    → (require_api_key key authorization token ≡ none) ↔ (bearer_token authorization token ≡ key)
unfolding require_api_key
accepts_iff key authorization token n = elim (Bool-cases (str_eq key "")) [
  | inl empty ↦ absurd (n ((eq_iff key "").0 empty))
  | inr full ↦ elim (Bool-cases (constant_time_equal (bearer_token authorization token) key)) [
    | inl same ↦ rw (full, same) (λ e. (equal_iff _ key).0 same, λ e. refl)
    | inr other ↦
        rw (full, other) (λ e. ground arith, λ e. absurd (let same = (equal_iff _ key).1 e in cc))
  ]
]

abbrev pub Presents : String → String → String → Type 0
Presents key authorization token =
    (authorization ≡ join "Bearer " key)
    ⊎ ((starts_with authorization "Bearer " ≡ false) × (token ≡ key))

Presents-of_token :
    (key authorization token : String)
    → bearer_token authorization token ≡ key
    → Presents key authorization token
Presents-of_token key authorization token h =
    elim (Bool-cases (starts_with authorization "Bearer ")) [
      | inl begins ↦
          let (rest, e) = (starts_with_iff authorization "Bearer ").0 begins in
          let h' : bearer_token (join "Bearer " rest) token ≡ key = rw (sym e) at h in
          inl (sym e ∙ ap (join "Bearer ") (sym (bearer_of_prefix rest token) ∙ h'))
      | inr other ↦ inr (other, sym (bearer_of_none authorization token other) ∙ h)
    ]

pub token_of_Presents :
    (key authorization token : String)
    → Presents key authorization token
    → bearer_token authorization token ≡ key
token_of_Presents key authorization token (inl e) = rw e (bearer_of_prefix key token)
token_of_Presents key authorization token (inr (h, e)) = bearer_of_none authorization token h ∙ e

pub refuses :
    (key authorization token : String)
    → key ≢ ""
    → constant_time_equal (bearer_token authorization token) key ≡ false
    → require_api_key key authorization token ≡ some unauthorized
unfolding require_api_key
refuses key authorization token n other = elim (Bool-cases (str_eq key "")) [
  | inl empty ↦ absurd (n ((eq_iff key "").0 empty))
  | inr full ↦ rw (full, other) refl
]

pub access_cases :
    (key authorization token : String)
    → key ≢ ""
    → (Presents key authorization token × (require_api_key key authorization token ≡ none))
      ⊎ ((Presents key authorization token → ⊥)
          × (require_api_key key authorization token ≡ some unauthorized))
access_cases key authorization token n =
    let accepts = accepts_iff key authorization token n in
    elim (Bool-cases (constant_time_equal (bearer_token authorization token) key)) [
      | inl same ↦
          let e = (equal_iff _ key).0 same in
          inl (Presents-of_token key authorization token e, accepts.1 e)
      | inr other ↦ inr (
        λ p.
            absurd
              (let same = (equal_iff _ key).1 (token_of_Presents key authorization token p) in cc),
        refuses key authorization token n other,
      )
    ]

-- With an API key set, a request under /api/v1 whose Authorization header is "Bearer " and the key,
-- or whose header does not begin with "Bearer " and whose token parameter is the key, is served as
-- without a key. Any other is answered with 401 and changes nothing.
pub handle_lem :
    (format : Time → String) (parse_standard : String → Option (Time → Time))
    (collates : String → String → Bool) (key authorization token : String) (q : Request)
    (now : Time) (s : Server)
    → key ≢ ""
    → (Presents key authorization token
        × (handle format parse_standard collates key authorization token q now s
            ≡ serve format parse_standard collates q now s))
      ⊎ ((Presents key authorization token → ⊥)
          × (handle format parse_standard collates key authorization token q now s
              ≡ some (unauthorized, s)))
unfolding handle
handle_lem format parse_standard collates key authorization token q now s n =
    elim (access_cases key authorization token n) [
      | inl (presents, accepted) ↦ inl (presents, rw accepted refl)
      | inr (lacks, refused) ↦ inr (lacks, rw refused refl)
    ]
