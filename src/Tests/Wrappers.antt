-- ===== src/Tests/Wrappers.antt =====
-- The wrappers and the error categories with the test server and its numbers.
use ssh2_cpp.Base.{refl, [], ◌∷◌, true, ◌≡◌, some, pos, negsuc}
use ssh2_cpp.Effect.{returned, World, sftp, ssh}
use ssh2_cpp.Error.Condition.{
  equals_errc, sftp_meaning, ssh_meaning, equals_errc-sftp, equals_errc-ssh,
  no_such_file_or_directory, permission_denied,
}
use ssh2_cpp.Error.Names.{
  NamesCodes, ssh_error_code_to_string, sftp_error_code_to_string, error_names_exact,
}
use ssh2_cpp.Wrapper.Contracts.{KeepContracts, wrappers-KeepContracts}
use ssh2_cpp.Wrapper.Sftp.Contract.{sftp_wrappers-KeepsContract, KeepsContract as SftpContract}
use ssh2_cpp.Tests.Disk.{fresh_disk}
use ssh2_cpp.Tests.Numbers.{test_codes, test_codes-HasDistinctCodes}
use ssh2_cpp.Wrapper.Sftp
use ssh2_cpp.Wrapper.Sftp.Fetched.{unlink_ex-swallowed}
use ssh2_cpp.Tests.Server.{Server, api}

wrappers-KeepContracts_example : KeepContracts api (some 1)
wrappers-KeepContracts_example = wrappers-KeepContracts api (some 1)

sftp_wrappers-KeepsContract_example : SftpContract api (some 1) (some 4)
sftp_wrappers-KeepsContract_example = sftp_wrappers-KeepsContract api (some 1) (some 4)

equals_errc-sftp_example :
    equals_errc test_codes (record { value = pos 2; category = sftp }) no_such_file_or_directory
    ≡ sftp_meaning test_codes no_such_file_or_directory (pos 2)
equals_errc-sftp_example =
    equals_errc-sftp test_codes test_codes-HasDistinctCodes (pos 2) no_such_file_or_directory

equals_errc-ssh_example :
    equals_errc test_codes (record { value = negsuc 17; category = ssh }) permission_denied
    ≡ ssh_meaning test_codes permission_denied (negsuc 17)
equals_errc-ssh_example =
    equals_errc-ssh test_codes test_codes-HasDistinctCodes (negsuc 17) permission_denied

error_names_exact_example :
    NamesCodes {S = Server} (ssh_error_code_to_string test_codes) test_codes.ssh_error
    × NamesCodes {S = Server} (sftp_error_code_to_string test_codes) test_codes.fx
error_names_exact_example = error_names_exact test_codes test_codes-HasDistinctCodes

abbrev world : World Server
world = record {
  remote = record { content = []; position = 0; hosts = []; disk = fresh_disk };
  locked = true;
  debug = true;
  calls = [];
}

unlink_ex-swallowed_example : (Sftp.unlink_ex api (some 1) (some 4) (47 ∷ []) world).0 ≡ returned tt
unfolding api test_codes
unlink_ex-swallowed_example =
    unlink_ex-swallowed api (some 1) (some 4) (47 ∷ []) world refl (refl, refl) λ e. cc
