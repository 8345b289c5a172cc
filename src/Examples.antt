-- ===== src/Examples.antt =====
-- The programs of test1 and test2: the callbacks that they give to `RegisterPackage`, and what these
-- share besides the sockets, the counter of `HeadPkg`. The protobuf code of the messages is an
-- argument.
pub mod Server
pub mod Start
pub mod Client
pub mod Calls
pub mod Packages
use cpp_coroutine.Common.{ℕ, ◌+◌, ◌%◌, ◌^◌, ◌≡◌, List, [], ◌∷◌, Option, none, some}
use cpp_coroutine.HeadPkg.{Head, Protobuf, HeadPkg, encode}
use cpp_coroutine.EventMgr.Call.{Call, ret, fault, step, sleep, Pause, returns, faulted, waits}
use cpp_coroutine.EventMgr.Net.{Net}

-- The messages `pbtest::DataReq` and `pbtest::DataRsp`.
pub record DataReq : Type 0 where
  pub cmd : Option ℕ
  pub query : Option ℕ

pub record DataRsp : Type 0 where
  pub cmd : Option ℕ
  pub result : Option ℕ
  pub msg : Option (List ℕ)

-- `ParseFromString` and `SerializeToString` of both.
pub record Messages : Type 0 where
  pub parse_req : List ℕ → Option DataReq
  pub serialize_req : DataReq → List ℕ
  pub parse_rsp : List ℕ → Option DataRsp
  pub serialize_rsp : DataRsp → List ℕ
  pub parse_serialize_req : (m : DataReq) → parse_req (serialize_req m) ≡ some m
  pub parse_serialize_rsp : (m : DataRsp) → parse_rsp (serialize_rsp m) ≡ some m

-- A number and a text that may not be set.
abbrev pub number : Option ℕ → ℕ
number none = 0
number (some n) = n

abbrev pub text : Option (List ℕ) → List ℕ
text none = []
text (some s) = s

-- The constructor of `HeadPkg`.
abbrev pub new_pkg : HeadPkg
new_pkg = record { head = record { seq = none; body = none }; packed = [] }

-- `Body`: the text is there afterwards.
unfoldable pub body : HeadPkg → List ℕ × HeadPkg
body p =
    let bytes = text p.head.body in
    (bytes, record p { head = record (p.head) { body = some bytes } })

-- What the callbacks of a program share: sockets and system, and `HeadPkg::id`.
pub record App (O : Type 0) : Type 0 where
  pub net : Net O
  pub id : ℕ

module _ {O : Type 0} where
  -- `Encode`, which counts `HeadPkg::id` up.
  unfoldable pub encode_next : Protobuf → HeadPkg → App O → HeadPkg × App O
  unfolding encode
  encode_next pb p w = let r = encode pb p w.id in (r.0, record w { id = r.1 })

  module _ {A : Type 0} where
    -- A call that works on the sockets.
    unfoldable pub within : Call (Net O) A → Call (App O) A
    within (ret a) = ret a
    within fault = fault
    within (step f k) = step (λ w. record w { net = f w.net }) (λ w. within (k w.net))
    within (sleep ms c) = sleep ms (within c)
