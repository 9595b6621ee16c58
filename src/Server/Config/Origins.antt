-- ===== src/Server/Config/Origins.antt =====
-- Who is let in under the allowlist of apps/server/src/index.ts.
use ysync.Common.{
  ℕ, ◌≡◌, refl, ap, ◌∙◌, Bool, true, false, not, ◌&&◌, List, [], ◌∷◌, ◌++◌, map, none, some, ◌==◌,
  arith,
}
use ysync.Common.Texts.{Text}
use ysync.Server.Config.{
  push_first, split_commas, is_space, trim_start, keep_before, trim_end, trim, filter_nonempty,
  allowed_origins,
}
use ysync.Server.Dispatch.{has_text, verify_client}

-- A text of white space.
abbrev pub is_blank : Text → Bool
is_blank [] = true
is_blank (c ∷ text) = (is_space c && not (c == b',')) && is_blank text

-- A text without white space and commas.
abbrev pub is_plain : Text → Bool
is_plain [] = true
is_plain (c ∷ text) = (not (is_space c) && not (c == b',')) && is_plain text

-- An origin of the list, which is not empty, and what is written before and after it.
pub record Entry : Type 0 where
  pub before : Text
  pub first : ℕ
  pub others : Text
  pub after : Text

abbrev pub origin_of : Entry → Text
origin_of e = e.first ∷ e.others

abbrev pub IsEntry : Entry → Type 0
IsEntry e =
    (is_blank e.before ≡ true) × ((is_plain (origin_of e) ≡ true) × (is_blank e.after ≡ true))

abbrev pub AreEntries : List Entry → Type 0
AreEntries [] = Unit {0}
AreEntries (e ∷ entries) = IsEntry e × AreEntries entries

abbrev written_entry : Entry → Text
written_entry e = e.before ++ (origin_of e ++ e.after)

-- The entries with commas between them.
abbrev pub written : Entry → List Entry → Text
written e [] = written_entry e
written e (next ∷ entries) = written_entry e ++ b',' ∷ written next entries

-- A text without a comma.
abbrev is_part : Text → Bool
is_part [] = true
is_part (c ∷ text) = not (c == b',') && is_part text

is_part-append : (s t : Text) → is_part (s ++ t) ≡ (is_part s && is_part t)
is_part-append [] t = refl
is_part-append (c ∷ s) t = ground (arith, is_part-append s t)

is_part-blank : (t : Text) → is_blank t ≡ true → is_part t ≡ true
is_part-blank [] h = refl
is_part-blank (c ∷ t) h = ground (arith, is_part-blank t, h)

is_part-plain : (t : Text) → is_plain t ≡ true → is_part t ≡ true
is_part-plain [] h = refl
is_part-plain (c ∷ t) h = ground (arith, is_part-plain t, h)

is_part-written_entry : (e : Entry) → IsEntry e → is_part (written_entry e) ≡ true
is_part-written_entry e h = ground (
  arith,
  is_part-append e.before (origin_of e ++ e.after),
  is_part-append (origin_of e) e.after,
  is_part-blank e.before h.0,
  is_part-plain (origin_of e) h.1.0,
  is_part-blank e.after h.1.1,
)

split_commas-last : (t : Text) → is_part t ≡ true → split_commas t ≡ t ∷ []
unfolding split_commas push_first
split_commas-last [] h = refl
split_commas-last (c ∷ t) h = ground (arith, split_commas-last t, h)

split_commas-part :
    (t rest : Text) → is_part t ≡ true → split_commas (t ++ b',' ∷ rest) ≡ t ∷ split_commas rest
unfolding split_commas push_first
split_commas-part [] rest h = refl
split_commas-part (c ∷ t) rest h = ground (arith, split_commas-part t rest, h)

trim_start-blank : (t u : Text) → is_blank t ≡ true → trim_start (t ++ u) ≡ trim_start u
unfolding trim_start
trim_start-blank [] u h = refl
trim_start-blank (c ∷ t) u h = ground (arith, trim_start-blank t u, h)

trim_end-blank : (t : Text) → is_blank t ≡ true → trim_end t ≡ []
unfolding trim_end keep_before
trim_end-blank [] h = refl
trim_end-blank (c ∷ t) h = rw (trim_end-blank t (ground (arith, h))) (ground (arith, h))

keep_before-plain : (c : ℕ) (rest : Text) → is_space c ≡ false → keep_before c rest ≡ c ∷ rest
unfolding keep_before
keep_before-plain c [] h = ground (arith, h)
keep_before-plain c (d ∷ rest) h = refl

trim_end-plain :
    (t after : Text) → is_plain t ≡ true → is_blank after ≡ true → trim_end (t ++ after) ≡ t
unfolding trim_end
trim_end-plain [] after h b = trim_end-blank after b
trim_end-plain (c ∷ t) after h b =
    keep_before-plain c (trim_end (t ++ after)) (ground (arith, h))
    ∙ ap (λ u. c ∷ u) (trim_end-plain t after (ground (arith, h)) b)

trim-written_entry : (e : Entry) → IsEntry e → trim (written_entry e) ≡ origin_of e
unfolding trim trim_start
trim-written_entry e h =
    let first : trim_start (origin_of e ++ e.after) ≡ origin_of e ++ e.after =
      ground (arith, h.1.0) in
    ap trim_end (trim_start-blank e.before (origin_of e ++ e.after) h.0 ∙ first)
    ∙ trim_end-plain (origin_of e) e.after h.1.0 h.1.1

split_commas-written :
    (e : Entry) (entries : List Entry)
    → AreEntries (e ∷ entries)
    → split_commas (written e entries) ≡ map written_entry (e ∷ entries)
split_commas-written e [] h = split_commas-last (written_entry e) (is_part-written_entry e h.0)
split_commas-written e (next ∷ entries) h =
    split_commas-part (written_entry e) (written next entries) (is_part-written_entry e h.0)
    ∙ ap (λ parts. written_entry e ∷ parts) (split_commas-written next entries h.1)

kept :
    (entries : List Entry)
    → AreEntries entries
    → filter_nonempty (map trim (map written_entry entries)) ≡ map origin_of entries
unfolding filter_nonempty
kept [] h = refl
kept (e ∷ entries) h =
    ap (λ t. filter_nonempty (t ∷ map trim (map written_entry entries))) (trim-written_entry e h.0)
    ∙ ap (λ rest. origin_of e ∷ rest) (kept entries h.1)

allowed_origins-written :
    (e : Entry) (entries : List Entry)
    → AreEntries (e ∷ entries)
    → allowed_origins (some (written e entries)) ≡ map origin_of (e ∷ entries)
unfolding allowed_origins
allowed_origins-written e entries h =
    ap (λ parts. filter_nonempty (map trim parts)) (split_commas-written e entries h)
    ∙ kept (e ∷ entries) h

-- When ALLOWED_ORIGINS lists origins that are not empty and hold no white space and no comma, with
-- commas between them and any white space around each, a connection with an origin is let in
-- exactly when its origin is one of them, and one without an origin never.
pub verify_client-allowed_origins :
    (e : Entry) (entries : List Entry) (c : ℕ) (origin : Text)
    → AreEntries (e ∷ entries)
    → let allowed = allowed_origins (some (written e entries)) in
      (verify_client allowed (some (c ∷ origin))
        ≡ has_text (c ∷ origin) (map origin_of (e ∷ entries)))
      × ((verify_client allowed (some []) ≡ false) × (verify_client allowed none ≡ false))
unfolding verify_client
verify_client-allowed_origins e entries c origin h =
    rw (allowed_origins-written e entries h) (refl, (refl, refl))
