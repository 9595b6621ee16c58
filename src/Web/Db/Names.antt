-- ===== src/Web/Db/Names.antt =====
-- The names and colors of apps/web/src/lib/db.ts.
use ysync.Common.{List, [], ◌∷◌}
use ysync.Common.Texts.{Text}

abbrev pub all_names : List Text
all_names =
    (b'I' ∷ b'r' ∷ b'o' ∷ b'n' ∷ b' ' ∷ b'M' ∷ b'a' ∷ b'n' ∷ [])
    ∷ (b'C' ∷ b'a' ∷ b'p' ∷ b't' ∷ b'a' ∷ b'i' ∷ b'n' ∷ b' ' ∷ b'A' ∷ b'm' ∷ b'e' ∷ b'r' ∷ b'i'
        ∷ b'c' ∷ b'a' ∷ [])
    ∷ (b'T' ∷ b'h' ∷ b'o' ∷ b'r' ∷ [])
    ∷ (b'H' ∷ b'u' ∷ b'l' ∷ b'k' ∷ [])
    ∷ (b'B' ∷ b'l' ∷ b'a' ∷ b'c' ∷ b'k' ∷ b' ' ∷ b'W' ∷ b'i' ∷ b'd' ∷ b'o' ∷ b'w' ∷ [])
    ∷ (b'H' ∷ b'a' ∷ b'w' ∷ b'k' ∷ b'e' ∷ b'y' ∷ b'e' ∷ [])
    ∷ (b'S' ∷ b'c' ∷ b'a' ∷ b'r' ∷ b'l' ∷ b'e' ∷ b't' ∷ b' ' ∷ b'W' ∷ b'i' ∷ b't' ∷ b'c' ∷ b'h'
        ∷ [])
    ∷ (b'V' ∷ b'i' ∷ b's' ∷ b'i' ∷ b'o' ∷ b'n' ∷ [])
    ∷ (b'F' ∷ b'a' ∷ b'l' ∷ b'c' ∷ b'o' ∷ b'n' ∷ [])
    ∷ (b'W' ∷ b'i' ∷ b'n' ∷ b't' ∷ b'e' ∷ b'r' ∷ b' ' ∷ b'S' ∷ b'o' ∷ b'l' ∷ b'd' ∷ b'i' ∷ b'e'
        ∷ b'r' ∷ [])
    ∷ (b'W' ∷ b'a' ∷ b'r' ∷ b' ' ∷ b'M' ∷ b'a' ∷ b'c' ∷ b'h' ∷ b'i' ∷ b'n' ∷ b'e' ∷ [])
    ∷ (b'S' ∷ b'p' ∷ b'i' ∷ b'd' ∷ b'e' ∷ b'r' ∷ b'-' ∷ b'M' ∷ b'a' ∷ b'n' ∷ [])
    ∷ (b'A' ∷ b'n' ∷ b't' ∷ b'-' ∷ b'M' ∷ b'a' ∷ b'n' ∷ [])
    ∷ (b'W' ∷ b'a' ∷ b's' ∷ b'p' ∷ [])
    ∷ (b'B' ∷ b'l' ∷ b'a' ∷ b'c' ∷ b'k' ∷ b' ' ∷ b'P' ∷ b'a' ∷ b'n' ∷ b't' ∷ b'h' ∷ b'e' ∷ b'r'
        ∷ [])
    ∷ (b'C' ∷ b'a' ∷ b'p' ∷ b't' ∷ b'a' ∷ b'i' ∷ b'n' ∷ b' ' ∷ b'M' ∷ b'a' ∷ b'r' ∷ b'v' ∷ b'e'
        ∷ b'l' ∷ [])
    ∷ (b'D' ∷ b'o' ∷ b'c' ∷ b't' ∷ b'o' ∷ b'r' ∷ b' ' ∷ b'S' ∷ b't' ∷ b'r' ∷ b'a' ∷ b'n' ∷ b'g'
        ∷ b'e' ∷ [])
    ∷ (b'S' ∷ b'h' ∷ b'a' ∷ b'n' ∷ b'g' ∷ b'-' ∷ b'C' ∷ b'h' ∷ b'i' ∷ [])
    ∷ (b'S' ∷ b'h' ∷ b'e' ∷ b'-' ∷ b'H' ∷ b'u' ∷ b'l' ∷ b'k' ∷ [])
    ∷ (b'M' ∷ b's' ∷ b'.' ∷ b' ' ∷ b'M' ∷ b'a' ∷ b'r' ∷ b'v' ∷ b'e' ∷ b'l' ∷ [])
    ∷ (b'K' ∷ b'a' ∷ b't' ∷ b'e' ∷ b' ' ∷ b'B' ∷ b'i' ∷ b's' ∷ b'h' ∷ b'o' ∷ b'p' ∷ [])
    ∷ (b'Y' ∷ b'e' ∷ b'l' ∷ b'e' ∷ b'n' ∷ b'a' ∷ b' ' ∷ b'B' ∷ b'e' ∷ b'l' ∷ b'o' ∷ b'v' ∷ b'a'
        ∷ [])
    ∷ (b'M' ∷ b'o' ∷ b'o' ∷ b'n' ∷ b' ' ∷ b'K' ∷ b'n' ∷ b'i' ∷ b'g' ∷ b'h' ∷ b't' ∷ [])
    ∷ (b'M' ∷ b'i' ∷ b'g' ∷ b'h' ∷ b't' ∷ b'y' ∷ b' ' ∷ b'T' ∷ b'h' ∷ b'o' ∷ b'r' ∷ [])
    ∷ (b'S' ∷ b't' ∷ b'a' ∷ b'r' ∷ b'-' ∷ b'L' ∷ b'o' ∷ b'r' ∷ b'd' ∷ [])
    ∷ (b'G' ∷ b'a' ∷ b'm' ∷ b'o' ∷ b'r' ∷ b'a' ∷ [])
    ∷ (b'N' ∷ b'e' ∷ b'b' ∷ b'u' ∷ b'l' ∷ b'a' ∷ [])
    ∷ (b'R' ∷ b'o' ∷ b'c' ∷ b'k' ∷ b'e' ∷ b't' ∷ [])
    ∷ (b'G' ∷ b'r' ∷ b'o' ∷ b'o' ∷ b't' ∷ [])
    ∷ (b'D' ∷ b'r' ∷ b'a' ∷ b'x' ∷ [])
    ∷ (b'M' ∷ b'a' ∷ b'n' ∷ b't' ∷ b'i' ∷ b's' ∷ [])
    ∷ (b'W' ∷ b'o' ∷ b'n' ∷ b'g' ∷ [])
    ∷ (b'V' ∷ b'a' ∷ b'l' ∷ b'k' ∷ b'y' ∷ b'r' ∷ b'i' ∷ b'e' ∷ [])
    ∷ (b'O' ∷ b'k' ∷ b'o' ∷ b'y' ∷ b'e' ∷ [])
    ∷ (b'S' ∷ b'h' ∷ b'u' ∷ b'r' ∷ b'i' ∷ [])
    ∷ (b'M' ∷ 0x27 ∷ b'B' ∷ b'a' ∷ b'k' ∷ b'u' ∷ [])
    ∷ (b'A' ∷ b'm' ∷ b'e' ∷ b'r' ∷ b'i' ∷ b'c' ∷ b'a' ∷ b' ' ∷ b'C' ∷ b'h' ∷ b'a' ∷ b'v' ∷ b'e'
        ∷ b'z' ∷ [])
    ∷ (b'C' ∷ b'a' ∷ b's' ∷ b's' ∷ b'i' ∷ b'e' ∷ b' ' ∷ b'L' ∷ b'a' ∷ b'n' ∷ b'g' ∷ [])
    ∷ (b'I' ∷ b'r' ∷ b'o' ∷ b'n' ∷ b'h' ∷ b'e' ∷ b'a' ∷ b'r' ∷ b't' ∷ [])
    ∷ (b'W' ∷ b'i' ∷ b'c' ∷ b'c' ∷ b'a' ∷ b'n' ∷ [])
    ∷ (b'S' ∷ b'p' ∷ b'e' ∷ b'e' ∷ b'd' ∷ [])
    ∷ (b'T' ∷ b'h' ∷ b'a' ∷ b'n' ∷ b'o' ∷ b's' ∷ [])
    ∷ (b'L' ∷ b'o' ∷ b'k' ∷ b'i' ∷ [])
    ∷ (b'U' ∷ b'l' ∷ b't' ∷ b'r' ∷ b'o' ∷ b'n' ∷ [])
    ∷ (b'K' ∷ b'a' ∷ b'n' ∷ b'g' ∷ [])
    ∷ (b'B' ∷ b'a' ∷ b'r' ∷ b'o' ∷ b'n' ∷ b' ' ∷ b'Z' ∷ b'e' ∷ b'm' ∷ b'o' ∷ [])
    ∷ (b'R' ∷ b'e' ∷ b'd' ∷ b' ' ∷ b'S' ∷ b'k' ∷ b'u' ∷ b'l' ∷ b'l' ∷ [])
    ∷ (b'K' ∷ b'i' ∷ b'l' ∷ b'l' ∷ b'm' ∷ b'o' ∷ b'n' ∷ b'g' ∷ b'e' ∷ b'r' ∷ [])
    ∷ (b'H' ∷ b'e' ∷ b'l' ∷ b'a' ∷ [])
    ∷ (b'T' ∷ b'a' ∷ b's' ∷ b'k' ∷ b'm' ∷ b'a' ∷ b's' ∷ b't' ∷ b'e' ∷ b'r' ∷ [])
    ∷ (b'A' ∷ b'b' ∷ b'o' ∷ b'm' ∷ b'i' ∷ b'n' ∷ b'a' ∷ b't' ∷ b'i' ∷ b'o' ∷ b'n' ∷ [])
    ∷ (b'R' ∷ b'o' ∷ b'n' ∷ b'a' ∷ b'n' ∷ [])
    ∷ (b'E' ∷ b'g' ∷ b'o' ∷ [])
    ∷ (b'G' ∷ b'r' ∷ b'e' ∷ b'e' ∷ b'n' ∷ b' ' ∷ b'G' ∷ b'o' ∷ b'b' ∷ b'l' ∷ b'i' ∷ b'n' ∷ [])
    ∷ (b'D' ∷ b'o' ∷ b'c' ∷ b't' ∷ b'o' ∷ b'r' ∷ b' ' ∷ b'O' ∷ b'c' ∷ b't' ∷ b'o' ∷ b'p' ∷ b'u'
        ∷ b's' ∷ [])
    ∷ []

abbrev pub all_colors : List Text
all_colors =
    (b'#' ∷ b'e' ∷ b'6' ∷ b'3' ∷ b'9' ∷ b'4' ∷ b'6' ∷ [])
    ∷ (b'#' ∷ b'2' ∷ b'a' ∷ b'9' ∷ b'd' ∷ b'8' ∷ b'f' ∷ [])
    ∷ (b'#' ∷ b'e' ∷ b'9' ∷ b'c' ∷ b'4' ∷ b'6' ∷ b'a' ∷ [])
    ∷ (b'#' ∷ b'4' ∷ b'5' ∷ b'7' ∷ b'b' ∷ b'9' ∷ b'd' ∷ [])
    ∷ (b'#' ∷ b'f' ∷ b'4' ∷ b'a' ∷ b'2' ∷ b'6' ∷ b'1' ∷ [])
    ∷ (b'#' ∷ b'8' ∷ b'3' ∷ b'3' ∷ b'8' ∷ b'e' ∷ b'c' ∷ [])
    ∷ (b'#' ∷ b'0' ∷ b'6' ∷ b'd' ∷ b'6' ∷ b'a' ∷ b'0' ∷ [])
    ∷ (b'#' ∷ b'e' ∷ b'f' ∷ b'4' ∷ b'7' ∷ b'6' ∷ b'f' ∷ [])
    ∷ []
