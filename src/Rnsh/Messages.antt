-- ===== src/Rnsh/Messages.antt =====
-- src/bin/rnsh.rs: the messages of a session, which are MessagePack values.
pub mod RoundTrip
use reticulum_router.Prelude.{
  ℕ, zero, suc, ◌+◌, ◌*◌, ◌%◌, ◌^◌, ◌<◌, ◌≡◌, Bool, true, false, Option, none, some, List, [], ◌∷◌,
  ◌++◌, map,
}
use reticulum_router.Text.{Text, Bytes, codes}
use reticulum_router.Rngit.Perms.{◌>>=◌}

-- The values of the `rmpv` crate, with what its documentation says of reading back what was written.
pub record Rmpv : Type 1 where
  pub Value : Type 0
  pub nil : Value
  pub str : Text → Value
  pub int : ℕ → Value
  pub bool : Bool → Value
  pub array : List Value → Value
  pub as_str : Value → Option Text
  pub as_u64 : Value → Option ℕ
  pub as_bool : Value → Option Bool
  pub as_array : Value → Option (List Value)
  pub write_value : Value → Bytes
  pub read_value : Bytes → Option Value
  pub as_str-str : (s : Text) → as_str (str s) ≡ some s
  pub as_str-nil : as_str nil ≡ none
  pub as_u64-int : (n : ℕ) → n < 2 ^ 63 → as_u64 (int n) ≡ some n
  pub as_bool-bool : (b : Bool) → as_bool (bool b) ≡ some b
  pub as_array-array : (vs : List Value) → as_array (array vs) ≡ some vs
  pub read_value-write_value : (v : Value) → read_value (write_value v) ≡ some v

abbrev pub msg_magic : ℕ
msg_magic = 0xac

-- `(MSG_MAGIC << 8) | id`, in 16 bits.
abbrev pub msg_type : ℕ → ℕ
msg_type id = (msg_magic * 256 + id) % 2 ^ 16

abbrev pub msg_type_window_size : ℕ
msg_type_window_size = msg_type 2

abbrev pub msg_type_exec_cmd : ℕ
msg_type_exec_cmd = msg_type 3

abbrev pub msg_type_stream_data : ℕ
msg_type_stream_data = msg_type 4

abbrev pub msg_type_version_info : ℕ
msg_type_version_info = msg_type 5

abbrev pub msg_type_error : ℕ
msg_type_error = msg_type 6

abbrev pub msg_type_cmd_exited : ℕ
msg_type_cmd_exited = msg_type 7

abbrev pub protocol_version : ℕ
protocol_version = 1

abbrev pub rnsh_version : Text
rnsh_version = codes "0.2.0"

unfoldable pub get {ℓ} : {A : Type ℓ} → ℕ → List A → Option A
get n [] = none
get zero (a ∷ xs) = some a
get (suc n) (a ∷ xs) = get n xs

abbrev pub unwrap_or {ℓ} : {A : Type ℓ} → A → Option A → A
unwrap_or d none = d
unwrap_or d (some a) = a

-- A command to execute: its words, whether its streams are pipes, the terminal and its size.
pub record Exec : Type 0 where
  pub cmd : List Text
  pub pipe_in : Bool
  pub pipe_out : Bool
  pub pipe_err : Bool
  pub term : Option Text
  pub rows : ℕ
  pub cols : ℕ
  pub width : ℕ
  pub height : ℕ

module _ (m : Rmpv) where
  unfoldable pub pack_ver : Text → ℕ → Bytes
  pack_ver sw pv = m.write_value (m.array (m.str sw ∷ m.int pv ∷ []))

  abbrev pub field {ℓ} : {A : Type ℓ} → (m.Value → Option A) → ℕ → List m.Value → Option A
  field kind n vs = do v ← get n vs; kind v

  unfoldable pub unpack_ver : Bytes → Option (Text × ℕ)
  unpack_ver raw = do
    v ← m.read_value raw
    a ← m.as_array v
    some (unwrap_or [] (field m.as_str 0 a), unwrap_or 0 (field m.as_u64 1 a) % 2 ^ 8)

  abbrev pub optional_str : Option Text → m.Value
  optional_str none = m.nil
  optional_str (some s) = m.str s

  abbrev pub exec_fields : Exec → List m.Value
  exec_fields e =
      m.array (map m.str e.cmd)
      ∷ m.bool e.pipe_in
      ∷ m.bool e.pipe_out
      ∷ m.bool e.pipe_err
      ∷ m.nil
      ∷ optional_str e.term
      ∷ m.int e.cols
      ∷ m.int e.rows
      ∷ m.int e.width
      ∷ m.int e.height
      ∷ []

  unfoldable pub pack_exec : Exec → Bytes
  pack_exec e = m.write_value (m.array (exec_fields e))

  -- `filter_map`
  unfoldable pub filter_map : List m.Value → List Text
  filter_map [] = []
  filter_map (v ∷ vs) =
      let rest = filter_map vs in elim (m.as_str v) [ none ↦ rest | some s ↦ s ∷ rest ]

  unfoldable pub unpack_exec : Bytes → Option Exec
  unpack_exec raw = do
    v ← m.read_value raw
    a ← m.as_array v
    some (record {
      cmd = unwrap_or [] (do ws ← field m.as_array 0 a; some (filter_map ws));
      pipe_in = unwrap_or false (field m.as_bool 1 a);
      pipe_out = unwrap_or false (field m.as_bool 2 a);
      pipe_err = unwrap_or false (field m.as_bool 3 a);
      term = field m.as_str 5 a;
      cols = unwrap_or 80 (field m.as_u64 6 a) % 2 ^ 16;
      rows = unwrap_or 24 (field m.as_u64 7 a) % 2 ^ 16;
      width = unwrap_or 0 (field m.as_u64 8 a) % 2 ^ 16;
      height = unwrap_or 0 (field m.as_u64 9 a) % 2 ^ 16;
    })

  unfoldable pub pack_err : Text → Bool → Bytes
  pack_err msg fatal = m.write_value (m.array (m.str msg ∷ m.bool fatal ∷ m.nil ∷ []))

  abbrev pub err_of : Option (List m.Value) → Text × Bool
  err_of none = (codes "parse error", false)
  err_of (some a) =
      (unwrap_or (codes "?") (field m.as_str 0 a), unwrap_or false (field m.as_bool 1 a))

  unfoldable pub unpack_err_msg : Bytes → Text × Bool
  unpack_err_msg raw = err_of (do v ← m.read_value raw; m.as_array v)
