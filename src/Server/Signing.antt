-- ===== src/Server/Signing.antt =====
-- The signed message of a node (SignatureMsg of pbft/consensus/pbft_msg_types.go), and Sign and Verify of
-- pbft/consensus/util.go. SHA-256 and ECDSA are parameters.
use Prim.Native.String.{◌++◌ as text_append}
use pa_bft.Base.{ℕ, Bool, String, Option, none, some}
use pa_bft.Base.Outcome.{Outcome, ok, ◌>>=◌}

-- R and S are pointers to big numbers. Bytes are text here.
pub record SignatureMsg : Type 0 where
  pub signature : String
  pub r : Option ℕ
  pub s : Option ℕ
  pub msg_type : String
  pub marshalled_msg : String

-- crypto/sha256, crypto/ecdsa with the private key of the node, which may be nil, and with a public key,
-- and the bytes of a big number. Keys are text. What ECDSA does at a nil key or a nil number is left open.
pub record Ecdsa : Type 0 where
  pub sum256 : String → String
  pub signs : String → Outcome (Option (ℕ × ℕ))
  pub verifies : Option String → String → Option ℕ → Option ℕ → Outcome Bool
  pub bytes : ℕ → String

-- The two numbers, and the bytes of both in one text.
unfoldable pub sign : Ecdsa → String → Outcome (Option (ℕ × ℕ × String))
sign e text = do
  signed ← e.signs (e.sum256 text)
  ok (elim signed [ none ↦ none | some (r, s) ↦ some (r, s, text_append (e.bytes r) (e.bytes s)) ])

unfoldable pub verify : Ecdsa → Option String → Option ℕ → Option ℕ → String → Outcome Bool
verify e key r s text = e.verifies key (e.sum256 text) r s
