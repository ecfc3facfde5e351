-- ===== src/Rnsh/Messages/RoundTrip.antt =====
-- Messages are read back as they were packed.
use reticulum_router.Prelude.{
  ℕ, ◌^◌, ◌<◌, ◌≡◌, refl, ap, Bool, Option, none, some, List, [], ◌∷◌, map, arith,
}
use reticulum_router.Text.{Text}
use reticulum_router.Rnsh.Messages.{
  Rmpv, Exec, get, pack_ver, unpack_ver, optional_str, exec_fields, pack_exec, unpack_exec,
  filter_map, pack_err, unpack_err_msg,
}

module _ (m : Rmpv) where
  filter_map-str : (ws : List Text) → filter_map m (map m.str ws) ≡ ws
  unfolding filter_map
  filter_map-str [] = refl
  filter_map-str (w ∷ ws) = rw (m.as_str-str w, filter_map) (ap (◌∷◌ w) (filter_map-str ws))

  -- The sizes are 16-bit numbers.
  pub record IsSized (e : Exec) : Type 0 where
    pub rows : e.rows < 2 ^ 16
    pub cols : e.cols < 2 ^ 16
    pub width : e.width < 2 ^ 16
    pub height : e.height < 2 ^ 16

  optional_str-as_str : (t : Option Text) → m.as_str (optional_str m t) ≡ t
  optional_str-as_str none = m.as_str-nil
  optional_str-as_str (some s) = m.as_str-str s

  -- A command to execute is read back as it was packed, the words, the terminal and the sizes in their
  -- places.
  pub unpack_exec-pack_exec : (e : Exec) → IsSized e → unpack_exec m (pack_exec m e) ≡ some e
  unfolding pack_exec unpack_exec get
  unpack_exec-pack_exec e s =
      rw
        (
          m.read_value-write_value (m.array (exec_fields m e)),
          m.as_array-array (exec_fields m e),
          m.as_array-array (map m.str e.cmd),
          filter_map-str e.cmd,
          m.as_bool-bool e.pipe_in,
          m.as_bool-bool e.pipe_out,
          m.as_bool-bool e.pipe_err,
          optional_str-as_str e.term,
          m.as_u64-int e.cols (omega (arith, s.cols)),
          m.as_u64-int e.rows (omega (arith, s.rows)),
          m.as_u64-int e.width (omega (arith, s.width)),
          m.as_u64-int e.height (omega (arith, s.height)),
        )
        (ground (arith, s.rows, s.cols, s.width, s.height))

  -- A version is read back as it was packed.
  pub unpack_ver-pack_ver :
      (sw : Text) (pv : ℕ) → pv < 2 ^ 8 → unpack_ver m (pack_ver m sw pv) ≡ some (sw, pv)
  unfolding pack_ver unpack_ver get
  unpack_ver-pack_ver sw pv h =
      rw
        (
          m.read_value-write_value (m.array (m.str sw ∷ m.int pv ∷ [])),
          m.as_array-array (m.str sw ∷ m.int pv ∷ []),
          m.as_str-str sw,
          m.as_u64-int pv (omega arith),
        )
        (ground arith)

  -- An error is read back as it was packed.
  pub unpack_err_msg-pack_err :
      (msg : Text) (fatal : Bool) → unpack_err_msg m (pack_err m msg fatal) ≡ (msg, fatal)
  unfolding pack_err unpack_err_msg get
  unpack_err_msg-pack_err msg fatal =
      rw
        (
          m.read_value-write_value (m.array (m.str msg ∷ m.bool fatal ∷ m.nil ∷ [])),
          m.as_array-array (m.str msg ∷ m.bool fatal ∷ m.nil ∷ []),
          m.as_str-str msg,
          m.as_bool-bool fatal,
        )
        refl
