-- ===== src/Dns/Exec.antt =====
-- Calls that read and write the cluster and may fail. What was written before an error stays written.
use maesh.Common.{Result, ok, err}

pub data DnsError : Type 0 where
  api_failed : DnsError
  no_container bad_version unsupported_version no_provider : DnsError
  no_config_map bad_stub_domains no_cluster_ip : DnsError
  panic : DnsError

abbrev pub Exec : Type 0 → Type 0 → Type 0
Exec S A = S → Result DnsError A × S

module _ {S A : Type 0} where
  abbrev pub pure : A → Exec S A
  pure a s = (ok a, s)

  abbrev pub raise : DnsError → Exec S A
  raise e s = (err e, s)

module _ {S A B : Type 0} where
  abbrev pub continue : Result DnsError A × S → (A → Exec S B) → Result DnsError B × S
  continue (ok a, s) f = f a s
  continue (err e, s) f = (err e, s)

  infixl 10 ◌>>=◌ ◌>>◌
  abbrev pub ◌>>=◌ : Exec S A → (A → Exec S B) → Exec S B
  ◌>>=◌ m f s = continue (m s) f

  abbrev pub ◌>>◌ : Exec S A → Exec S B → Exec S B
  m >> n = m >>= λ _. n
