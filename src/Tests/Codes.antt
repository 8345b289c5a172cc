-- ===== src/Tests/Codes.antt =====
-- Codes for the messages, in place of those that protobuf generates.
use cpp_coroutine.Common.{ℕ, zero, suc, ◌≡◌, refl, List, [], ◌∷◌, Option, none, some}
use cpp_coroutine.HeadPkg.{Head, Protobuf}
use cpp_coroutine.Examples.{DataReq, DataRsp, Messages}

-- A simple format in the place of protobuf's.
abbrev pub number_code : Option ℕ → ℕ
number_code none = 0
number_code (some n) = suc n

abbrev pub body_code : Option (List ℕ) → List ℕ
body_code none = 0 ∷ []
body_code (some b) = 1 ∷ b

abbrev pub number_of : ℕ → Option ℕ
number_of zero = none
number_of (suc n) = some n

abbrev pub body_of : List ℕ → Option (Option (List ℕ))
body_of [] = none
body_of (zero ∷ b) = some none
body_of (suc n ∷ b) = some (some b)

abbrev pub parse_code : List ℕ → Option Head
parse_code [] = none
parse_code (a ∷ l) = elim (body_of l) [
  | none ↦ none
  | some b ↦ some (record { seq = number_of a; body = b })
]

pub parse_code-code :
    (n : Option ℕ) (b : Option (List ℕ))
    → parse_code (number_code n ∷ body_code b) ≡ some (record { seq = n; body = b })
parse_code-code none none = refl
parse_code-code none (some b) = refl
parse_code-code (some n) none = refl
parse_code-code (some n) (some b) = refl

abbrev pub codes : Protobuf
codes = record {
  parse = parse_code;
  serialize = λ h. number_code h.seq ∷ body_code h.body;
  parse_serialize = λ h. parse_code-code h.seq h.body;
}

abbrev parse_req : List ℕ → Option DataReq
parse_req (a ∷ b ∷ []) = some (record { cmd = number_of a; query = number_of b })
parse_req _ = none

pub parse_req-code :
    (a b : Option ℕ)
    → parse_req (number_code a ∷ number_code b ∷ []) ≡ some (record { cmd = a; query = b })
parse_req-code none none = refl
parse_req-code none (some b) = refl
parse_req-code (some a) none = refl
parse_req-code (some a) (some b) = refl

abbrev parse_rsp : List ℕ → Option DataRsp
parse_rsp (a ∷ b ∷ l) = elim (body_of l) [
  | none ↦ none
  | some m ↦ some (record { cmd = number_of a; result = number_of b; msg = m })
]
parse_rsp _ = none

number_of-code : (a : Option ℕ) → number_of (number_code a) ≡ a
number_of-code none = refl
number_of-code (some a) = refl

pub parse_rsp-code :
    (a b : Option ℕ) (m : Option (List ℕ))
    → parse_rsp (number_code a ∷ number_code b ∷ body_code m)
      ≡ some (record { cmd = a; result = b; msg = m })
parse_rsp-code a b none = rw (number_of-code a, number_of-code b) refl
parse_rsp-code a b (some m) = rw (number_of-code a, number_of-code b) refl

abbrev pub messages : Messages
messages = record {
  parse_req = parse_req;
  serialize_req = λ m. number_code m.cmd ∷ number_code m.query ∷ [];
  parse_rsp = parse_rsp;
  serialize_rsp = λ m. number_code m.cmd ∷ number_code m.result ∷ body_code m.msg;
  parse_serialize_req = λ m. parse_req-code m.cmd m.query;
  parse_serialize_rsp = λ m. parse_rsp-code m.cmd m.result m.msg;
}
