-- ===== src/Server/Config.antt =====
-- apps/server/src/config.ts, the allowlist of apps/server/src/index.ts, and `summarizeOpIds` of
-- apps/server/src/logger.ts. What `process.env` holds is an argument, `none` where it is undefined.
pub mod Origins
use ysync.Common.{
  ℕ, zero, suc, Bool, true, false, ◌||◌, ◌&&◌, List, [], ◌∷◌, map, Option, none, some, ◌==◌, leb,
  ltb, length, if◌then◌else◌,
}
use ysync.Common.Texts.{Text, text_eq}

abbrev production : Text
production = b'p' ∷ b'r' ∷ b'o' ∷ b'd' ∷ b'u' ∷ b'c' ∷ b't' ∷ b'i' ∷ b'o' ∷ b'n' ∷ []

-- Whether `NODE_ENV` is "production".
unfoldable is_production : Option Text → Bool
unfolding text_eq
is_production none = false
is_production (some node_env) = text_eq node_env production

-- Where there is no value, or an empty one.
unfoldable fallback_url : Option Text → Text → Option Text
unfolding is_production
fallback_url node_env dev_fallback = if is_production node_env then none else some dev_fallback

unfoldable resolve_required_url : Option Text → Option Text → Text → Option Text
unfolding fallback_url
resolve_required_url node_env none dev_fallback = fallback_url node_env dev_fallback
resolve_required_url node_env (some []) dev_fallback = fallback_url node_env dev_fallback
resolve_required_url node_env (some (c ∷ value)) dev_fallback = some (c ∷ value)

-- `parts[0] = c + parts[0]`
unfoldable pub push_first : ℕ → List Text → List Text
push_first c [] = (c ∷ []) ∷ []
push_first c (part ∷ parts) = (c ∷ part) ∷ parts

-- `text.split(",")`
unfoldable pub split_commas : Text → List Text
unfolding push_first
split_commas [] = [] ∷ []
split_commas (c ∷ text) =
    let parts = split_commas text in if c == b',' then [] ∷ parts else push_first c parts

-- The white space and the line terminators of JavaScript.
unfoldable pub is_space : ℕ → Bool
is_space c =
    (leb 9 c && leb c 13)
    || (c == 32
        || (c == 0xA0
            || (c == 0x1680
                || ((leb 0x2000 c && leb c 0x200A)
                    || (c == 0x2028
                        || (c == 0x2029
                            || (c == 0x202F || (c == 0x205F || (c == 0x3000 || c == 0xFEFF)))))))))

unfoldable pub trim_start : Text → Text
unfolding is_space
trim_start [] = []
trim_start (c ∷ text) = let rest = trim_start text in if is_space c then rest else c ∷ text

-- A character before the end of a text that is trimmed at its end.
unfoldable pub keep_before : ℕ → Text → Text
unfolding is_space
keep_before c [] = if is_space c then [] else c ∷ []
keep_before c (d ∷ rest) = c ∷ d ∷ rest

unfoldable pub trim_end : Text → Text
unfolding keep_before
trim_end [] = []
trim_end (c ∷ text) = keep_before c (trim_end text)

unfoldable pub trim : Text → Text
unfolding trim_start trim_end
trim text = trim_end (trim_start text)

-- `filter((origin) => origin.length > 0)`
unfoldable pub filter_nonempty : List Text → List Text
filter_nonempty [] = []
filter_nonempty ([] ∷ texts) = filter_nonempty texts
filter_nonempty ((c ∷ text) ∷ texts) = (c ∷ text) ∷ filter_nonempty texts

-- The list that `createServer` is given; it takes undefined as it takes an empty list.
unfoldable pub allowed_origins : Option Text → List Text
unfolding split_commas trim filter_nonempty
allowed_origins none = []
allowed_origins (some text) = filter_nonempty (map trim (split_commas text))

-- `list.slice(0, n)`
unfoldable take : ℕ → List Text → List Text
take zero texts = []
take (suc n) [] = []
take (suc n) (t ∷ texts) = t ∷ take n texts

unfoldable summarize_op_ids : List Text → ℕ → ℕ × List Text
unfolding take
summarize_op_ids op_ids max =
    (length op_ids, if ltb max (length op_ids) then take max op_ids else op_ids)
