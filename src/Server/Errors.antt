-- ===== src/Server/Errors.antt =====
-- The errors that apps/server/src/server.ts and apps/server/src/roomManager.ts send.
use ysync.Common.{[], ◌∷◌}
use ysync.Common.Texts.{Text}
use ysync.Protocol.{ServerMessage, error}

-- SEQ_ALLOC_FAILED: could not allocate a sequence number for your edit — it was not applied, please retry
abbrev pub seq_alloc_failed : ServerMessage
seq_alloc_failed =
    error
      (b'S' ∷ b'E' ∷ b'Q' ∷ b'_' ∷ b'A' ∷ b'L' ∷ b'L' ∷ b'O' ∷ b'C' ∷ b'_' ∷ b'F' ∷ b'A' ∷ b'I'
        ∷ b'L' ∷ b'E' ∷ b'D' ∷ [])
      (b'c' ∷ b'o' ∷ b'u' ∷ b'l' ∷ b'd' ∷ b' ' ∷ b'n' ∷ b'o' ∷ b't' ∷ b' ' ∷ b'a' ∷ b'l' ∷ b'l'
        ∷ b'o' ∷ b'c' ∷ b'a' ∷ b't' ∷ b'e' ∷ b' ' ∷ b'a' ∷ b' ' ∷ b's' ∷ b'e' ∷ b'q' ∷ b'u' ∷ b'e'
        ∷ b'n' ∷ b'c' ∷ b'e' ∷ b' ' ∷ b'n' ∷ b'u' ∷ b'm' ∷ b'b' ∷ b'e' ∷ b'r' ∷ b' ' ∷ b'f' ∷ b'o'
        ∷ b'r' ∷ b' ' ∷ b'y' ∷ b'o' ∷ b'u' ∷ b'r' ∷ b' ' ∷ b'e' ∷ b'd' ∷ b'i' ∷ b't' ∷ b' ' ∷ 0x2014
        ∷ b' ' ∷ b'i' ∷ b't' ∷ b' ' ∷ b'w' ∷ b'a' ∷ b's' ∷ b' ' ∷ b'n' ∷ b'o' ∷ b't' ∷ b' ' ∷ b'a'
        ∷ b'p' ∷ b'p' ∷ b'l' ∷ b'i' ∷ b'e' ∷ b'd' ∷ b',' ∷ b' ' ∷ b'p' ∷ b'l' ∷ b'e' ∷ b'a' ∷ b's'
        ∷ b'e' ∷ b' ' ∷ b'r' ∷ b'e' ∷ b't' ∷ b'r' ∷ b'y' ∷ [])

-- PERSIST_FAILED: your edit was applied and shared, but could not be durably saved — it will be retried on reconnect
abbrev pub persist_failed : ServerMessage
persist_failed =
    error
      (b'P' ∷ b'E' ∷ b'R' ∷ b'S' ∷ b'I' ∷ b'S' ∷ b'T' ∷ b'_' ∷ b'F' ∷ b'A' ∷ b'I' ∷ b'L' ∷ b'E'
        ∷ b'D' ∷ [])
      (b'y' ∷ b'o' ∷ b'u' ∷ b'r' ∷ b' ' ∷ b'e' ∷ b'd' ∷ b'i' ∷ b't' ∷ b' ' ∷ b'w' ∷ b'a' ∷ b's'
        ∷ b' ' ∷ b'a' ∷ b'p' ∷ b'p' ∷ b'l' ∷ b'i' ∷ b'e' ∷ b'd' ∷ b' ' ∷ b'a' ∷ b'n' ∷ b'd' ∷ b' '
        ∷ b's' ∷ b'h' ∷ b'a' ∷ b'r' ∷ b'e' ∷ b'd' ∷ b',' ∷ b' ' ∷ b'b' ∷ b'u' ∷ b't' ∷ b' ' ∷ b'c'
        ∷ b'o' ∷ b'u' ∷ b'l' ∷ b'd' ∷ b' ' ∷ b'n' ∷ b'o' ∷ b't' ∷ b' ' ∷ b'b' ∷ b'e' ∷ b' ' ∷ b'd'
        ∷ b'u' ∷ b'r' ∷ b'a' ∷ b'b' ∷ b'l' ∷ b'y' ∷ b' ' ∷ b's' ∷ b'a' ∷ b'v' ∷ b'e' ∷ b'd' ∷ b' '
        ∷ 0x2014 ∷ b' ' ∷ b'i' ∷ b't' ∷ b' ' ∷ b'w' ∷ b'i' ∷ b'l' ∷ b'l' ∷ b' ' ∷ b'b' ∷ b'e' ∷ b' '
        ∷ b'r' ∷ b'e' ∷ b't' ∷ b'r' ∷ b'i' ∷ b'e' ∷ b'd' ∷ b' ' ∷ b'o' ∷ b'n' ∷ b' ' ∷ b'r' ∷ b'e'
        ∷ b'c' ∷ b'o' ∷ b'n' ∷ b'n' ∷ b'e' ∷ b'c' ∷ b't' ∷ [])

-- INVALID_JSON: message was not valid JSON
abbrev pub invalid_json : ServerMessage
invalid_json =
    error (b'I' ∷ b'N' ∷ b'V' ∷ b'A' ∷ b'L' ∷ b'I' ∷ b'D' ∷ b'_' ∷ b'J' ∷ b'S' ∷ b'O' ∷ b'N' ∷ []) (
      b'm' ∷ b'e' ∷ b's' ∷ b's' ∷ b'a' ∷ b'g' ∷ b'e' ∷ b' ' ∷ b'w' ∷ b'a' ∷ b's' ∷ b' ' ∷ b'n'
      ∷ b'o' ∷ b't' ∷ b' ' ∷ b'v' ∷ b'a' ∷ b'l' ∷ b'i' ∷ b'd' ∷ b' ' ∷ b'J' ∷ b'S' ∷ b'O' ∷ b'N'
      ∷ [])

-- ALREADY_JOINED: this connection already joined a document
abbrev pub already_joined : ServerMessage
already_joined =
    error
      (b'A' ∷ b'L' ∷ b'R' ∷ b'E' ∷ b'A' ∷ b'D' ∷ b'Y' ∷ b'_' ∷ b'J' ∷ b'O' ∷ b'I' ∷ b'N' ∷ b'E'
        ∷ b'D' ∷ [])
      (b't' ∷ b'h' ∷ b'i' ∷ b's' ∷ b' ' ∷ b'c' ∷ b'o' ∷ b'n' ∷ b'n' ∷ b'e' ∷ b'c' ∷ b't' ∷ b'i'
        ∷ b'o' ∷ b'n' ∷ b' ' ∷ b'a' ∷ b'l' ∷ b'r' ∷ b'e' ∷ b'a' ∷ b'd' ∷ b'y' ∷ b' ' ∷ b'j' ∷ b'o'
        ∷ b'i' ∷ b'n' ∷ b'e' ∷ b'd' ∷ b' ' ∷ b'a' ∷ b' ' ∷ b'd' ∷ b'o' ∷ b'c' ∷ b'u' ∷ b'm' ∷ b'e'
        ∷ b'n' ∷ b't' ∷ [])

-- NOT_JOINED: send a join message before anything else
abbrev pub not_joined : ServerMessage
not_joined = error (b'N' ∷ b'O' ∷ b'T' ∷ b'_' ∷ b'J' ∷ b'O' ∷ b'I' ∷ b'N' ∷ b'E' ∷ b'D' ∷ []) (
    b's' ∷ b'e' ∷ b'n' ∷ b'd' ∷ b' ' ∷ b'a' ∷ b' ' ∷ b'j' ∷ b'o' ∷ b'i' ∷ b'n' ∷ b' ' ∷ b'm' ∷ b'e'
    ∷ b's' ∷ b's' ∷ b'a' ∷ b'g' ∷ b'e' ∷ b' ' ∷ b'b' ∷ b'e' ∷ b'f' ∷ b'o' ∷ b'r' ∷ b'e' ∷ b' '
    ∷ b'a' ∷ b'n' ∷ b'y' ∷ b't' ∷ b'h' ∷ b'i' ∷ b'n' ∷ b'g' ∷ b' ' ∷ b'e' ∷ b'l' ∷ b's' ∷ b'e' ∷ [])

-- WRONG_DOC: this connection is joined to a different document
abbrev pub wrong_doc : ServerMessage
wrong_doc = error (b'W' ∷ b'R' ∷ b'O' ∷ b'N' ∷ b'G' ∷ b'_' ∷ b'D' ∷ b'O' ∷ b'C' ∷ []) (
    b't' ∷ b'h' ∷ b'i' ∷ b's' ∷ b' ' ∷ b'c' ∷ b'o' ∷ b'n' ∷ b'n' ∷ b'e' ∷ b'c' ∷ b't' ∷ b'i' ∷ b'o'
    ∷ b'n' ∷ b' ' ∷ b'i' ∷ b's' ∷ b' ' ∷ b'j' ∷ b'o' ∷ b'i' ∷ b'n' ∷ b'e' ∷ b'd' ∷ b' ' ∷ b't'
    ∷ b'o' ∷ b' ' ∷ b'a' ∷ b' ' ∷ b'd' ∷ b'i' ∷ b'f' ∷ b'f' ∷ b'e' ∷ b'r' ∷ b'e' ∷ b'n' ∷ b't'
    ∷ b' ' ∷ b'd' ∷ b'o' ∷ b'c' ∷ b'u' ∷ b'm' ∷ b'e' ∷ b'n' ∷ b't' ∷ [])

-- INTERNAL_ERROR: the server hit an unexpected error handling your message
abbrev pub internal_error : ServerMessage
internal_error =
    error
      (b'I' ∷ b'N' ∷ b'T' ∷ b'E' ∷ b'R' ∷ b'N' ∷ b'A' ∷ b'L' ∷ b'_' ∷ b'E' ∷ b'R' ∷ b'R' ∷ b'O'
        ∷ b'R' ∷ [])
      (b't' ∷ b'h' ∷ b'e' ∷ b' ' ∷ b's' ∷ b'e' ∷ b'r' ∷ b'v' ∷ b'e' ∷ b'r' ∷ b' ' ∷ b'h' ∷ b'i'
        ∷ b't' ∷ b' ' ∷ b'a' ∷ b'n' ∷ b' ' ∷ b'u' ∷ b'n' ∷ b'e' ∷ b'x' ∷ b'p' ∷ b'e' ∷ b'c' ∷ b't'
        ∷ b'e' ∷ b'd' ∷ b' ' ∷ b'e' ∷ b'r' ∷ b'r' ∷ b'o' ∷ b'r' ∷ b' ' ∷ b'h' ∷ b'a' ∷ b'n' ∷ b'd'
        ∷ b'l' ∷ b'i' ∷ b'n' ∷ b'g' ∷ b' ' ∷ b'y' ∷ b'o' ∷ b'u' ∷ b'r' ∷ b' ' ∷ b'm' ∷ b'e' ∷ b's'
        ∷ b's' ∷ b'a' ∷ b'g' ∷ b'e' ∷ [])

-- INVALID_MESSAGE: with the reason of the parser
abbrev pub invalid_message : Text → ServerMessage
invalid_message reason =
    error
      (b'I' ∷ b'N' ∷ b'V' ∷ b'A' ∷ b'L' ∷ b'I' ∷ b'D' ∷ b'_' ∷ b'M' ∷ b'E' ∷ b'S' ∷ b'S' ∷ b'A'
        ∷ b'G' ∷ b'E' ∷ [])
      reason
