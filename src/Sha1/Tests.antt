-- ===== src/Sha1/Tests.antt =====
-- Test vectors.
use wrac_plugin_template.Prelude.{arith, ◌++◌, ℕ, List, [], ◌∷◌, ◌≡◌, refl}
use wrac_plugin_template.Sha1.Standard.{standard_sha1}
use wrac_plugin_template.Sha1.Padding.{sha1-standard_sha1}
use wrac_plugin_template.Sha1.Names.{create_sha1_guid_from_name}
use wrac_plugin_template.Sha1.Names.Version5.{dns, version5, create_sha1_guid_from_name-version5}
use wrac_plugin_template.Sha1.{
  sha1, hash, pad_message, put_zeros, input, input_loop, process_message_block, compress, rounds,
  round, expand, reset, fresh,
}

-- "abc"
sha1-abc :
    sha1 (97 ∷ 98 ∷ 99 ∷ [])
    ≡ 0xa9 ∷ 0x99 ∷ 0x3e ∷ 0x36 ∷ 0x47 ∷ 0x06 ∷ 0x81 ∷ 0x6a ∷ 0xba ∷ 0x3e ∷ 0x25 ∷ 0x71 ∷ 0x78
      ∷ 0x50 ∷ 0xc2 ∷ 0x6c ∷ 0x9c ∷ 0xd0 ∷ 0xd8 ∷ 0x9d ∷ []
unfolding sha1 hash pad_message put_zeros input input_loop process_message_block compress rounds
    round expand reset fresh
sha1-abc = refl

abbrev abc : List ℕ
abc = 97 ∷ 98 ∷ 99 ∷ []

sha1-standard_sha1_example : sha1 abc ≡ standard_sha1 abc
sha1-standard_sha1_example = sha1-standard_sha1 abc (omega arith) (omega arith)

create_sha1_guid_from_name-version5_example :
    create_sha1_guid_from_name abc ≡ version5 (standard_sha1 (dns ++ abc))
create_sha1_guid_from_name-version5_example =
    create_sha1_guid_from_name-version5 abc (omega arith) (omega arith)
