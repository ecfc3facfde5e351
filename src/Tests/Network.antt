-- ===== src/Tests/Network.antt =====
-- A small network for examples: one link, packets that are always sent, and resources that are bytes.
use reticulum_router.Prelude.{ℕ, true, false, none, some}
use reticulum_router.Rngit.Transfer.{Net}
use reticulum_router.Tests.World.{small_wire}

abbrev pub small_net : Net small_wire
small_net = record {
  hash_size = 32;
  maphash_len = 4;
  World = ℕ;
  Link = ℕ;
  find_in_link = λ id w. some 7;
  send = λ link packet w. (true, w);
  path_hash = λ path. path;
  read_value = λ b. none;
  as_f64 = λ v. none;
  as_u64 = λ v. none;
  hash = λ r. r;
  sent_parts = λ r. 0;
  pack_advertisement = λ link r. some r;
  unpack_advertisement = λ b. none;
  new_from_advertisement = λ link adv. none;
  handle_request = λ r b h. (none, r);
  receive_part = λ r b. (false, r);
  all_parts_received = λ r. false;
  outstanding_parts = λ r. 0;
  window = λ r. 0;
  apply_hashmap = λ r n b. (false, r);
  build_request = λ r. (none, r);
  assemble = λ link r. none;
  build_proof = λ r. r;
  validate_proof = λ r b. false;
}
