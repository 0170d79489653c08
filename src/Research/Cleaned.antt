-- ===== src/Research/Cleaned.antt =====
-- The end of a job on a remote host (`cleanup` of signal_research/provisioners.py).
use signal_lab.Common.{◌≡◌, ok}
use signal_lab.Common.Text.{Text}
use signal_lab.Research.Ssh.{SshExecResult, Hosts, Remote}

module _ {W : Type 0} (hosts : Hosts W) where
  -- No command raises an error, whatever its exit code is.
  abbrev pub Answers : Type 0
  Answers = (command : Text) (w : W) → (r : SshExecResult) × ((hosts.exec command w).0 ≡ ok r)
