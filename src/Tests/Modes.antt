-- ===== src/Tests/Modes.antt =====
-- Opening in the modes of ssh/stream.hpp.
use ssh2_cpp.Base.{Bool, if◌then◌else◌, arith, ◌&&◌, ◌≡◌, refl, true, false, ◌↔◌}
use ssh2_cpp.Libssh2.{OpenFlags}
use ssh2_cpp.Effect.{returned}
use ssh2_cpp.Stream.Openmode.{
  Openmode, no_mode, StdOpenmode, translate_flags, openmode_to_libssh2_flags,
}
use ssh2_cpp.Stream.Openmode.Meaning.{
  flags_of, Opening, OpensFiles, refused, created, kept, emptied, openmode_to_libssh2_flags_effect,
  openmode_to_libssh2_flags_table, noreplace_ignored, trunc_ignored, translate_flags_total,
}

-- a server that refuses truncation without creation
abbrev opening : OpenFlags → Bool → Opening
opening f exists =
    if exists
    then if f.fxf_creat && f.fxf_excl
      then refused
      else if f.fxf_trunc
      then if f.fxf_creat then emptied else refused
      else kept
    else if f.fxf_creat
    then created
    else refused

opening-OpensFiles : OpensFiles opening refused
opening-OpensFiles = record {
  creates = λ f c. ground arith;
  misses = λ f c. ground arith;
  excludes = λ f c e. ground arith;
  empties = λ f c e t. ground arith;
  truncates_alone = λ f c e t. ground arith;
  keeps = λ f e t. ground arith;
}

abbrev output_mode : Openmode
output_mode = record no_mode { output = true }

openmode_to_libssh2_flags_effect_example : opening (flags_of output_mode) true ≡ emptied
openmode_to_libssh2_flags_effect_example =
    openmode_to_libssh2_flags_effect opening refused opening-OpensFiles output_mode true
      (openmode_to_libssh2_flags_table output_mode)

abbrev unchecked_mode : Openmode
unchecked_mode = record no_mode { input = true; output = true; noreplace = true }

noreplace_ignored_example :
    (flags : OpenFlags) × (openmode_to_libssh2_flags unchecked_mode ≡ returned flags)
    × (opening flags true ≡ kept)
noreplace_ignored_example =
    noreplace_ignored opening refused opening-OpensFiles unchecked_mode refl refl refl refl

abbrev appending_mode : Openmode
appending_mode = record no_mode { output = true; app = true; trunc = true }

trunc_ignored_example :
    (flags : OpenFlags) × (openmode_to_libssh2_flags appending_mode ≡ returned flags)
    × (opening flags true ≡ kept)
trunc_ignored_example =
    trunc_ignored opening refused opening-OpensFiles appending_mode refl refl refl refl refl

abbrev std_mode : StdOpenmode
std_mode = record {
  std_in = true;
  std_out = true;
  std_app = false;
  std_trunc = true;
  std_ate = false;
  std_binary = true;
}

abbrev translated : Openmode
translated = record no_mode { input = true; output = true; trunc = true }

translate_flags_total_example :
    (translate_flags std_mode ≡ returned translated) ↔ ((false ≡ false) × (translated ≡ translated))
translate_flags_total_example = translate_flags_total std_mode translated

translate_flags_test : translate_flags std_mode ≡ returned translated
unfolding translate_flags
translate_flags_test = refl
