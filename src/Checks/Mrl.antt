-- ===== src/Checks/Mrl.antt =====
-- MRLs at concrete inputs.
use p2pxineplugin.Base.{
  ℕ, ◌≡◌, refl, arith, true, false, List, [], ◌∷◌, ◌++◌, some, none, pos, ok, fault, invalid_free,
  length, ◌⊎◌,
}
use p2pxineplugin.Plugin.Mrl.{
  Unset, protocol, colon, index_of, parse_at, parse_port, atoi, in_int, signed, skip_space,
  scan_digits, free_url, has_protocol, get_instance,
}
use p2pxineplugin.Plugin.Digits.{text_of}
use p2pxineplugin.Plugin.Address.{IsFault, parse_address, get_instance_never}

abbrev unset : Unset
unset = record {
  memory = λ i. 0;
  preview = λ i. 0;
  preview_size = pos 77;
  preview_read_done = true;
}

-- "p2p" as a host, and port 6666.
abbrev host : List ℕ
host = 112 ∷ 50 ∷ 112 ∷ []

abbrev digits : List ℕ
digits = 6 ∷ 6 ∷ 6 ∷ 6 ∷ []

-- The offset of the colon in the address of an MRL with that host and port.
finds_colon : index_of colon (host ++ colon ∷ text_of digits) ≡ some 3
unfolding index_of
finds_colon = refl

frees_colon : get_instance 1 unset (protocol ++ host ++ colon ∷ text_of digits) ≡ fault invalid_free
unfolding get_instance has_protocol index_of parse_at parse_port atoi in_int signed skip_space
    scan_digits free_url
frees_colon = refl

parse_address_example :
    (index_of colon (host ++ colon ∷ text_of digits) ≡ some (length host))
    × (parse_at 1 (host ++ colon ∷ text_of digits) (length host) ≡ ok (host, pos 6666))
parse_address_example =
    parse_address 1 host digits (omega arith) (λ e. cc)
      ((λ e. ground arith), ((λ e. ground arith), ((λ e. ground arith), tt)))
      (omega arith, (omega arith, (omega arith, (omega arith, tt)))) (omega arith)

get_instance_never_example :
    ((has_protocol host protocol ≡ false) × (get_instance 1 unset host ≡ ok none))
    ⊎ ((has_protocol host protocol ≡ true) × IsFault (get_instance 1 unset host))
get_instance_never_example = get_instance_never 1 unset host
