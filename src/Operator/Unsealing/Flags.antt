-- ===== src/Operator/Unsealing/Flags.antt =====
-- The operator's flags against those that cmd/bank-vaults/main.go registers.
use bank_vaults.Prelude.{
  String, Bool, true, false, ◌||◌, ◌&&◌, Option, none, some, List, [], ◌∷◌, concat, ◌==◌, ◌≡◌, refl,
}
use bank_vaults.Operator.Unsealing.{
  UnsealConfig, KubernetesUnsealConfig, GoogleUnsealConfig, AzureUnsealConfig, AwsUnsealConfig,
  AlibabaUnsealConfig, VaultMeta, to_args, args_of, kubernetes_args, google_args, aws_args,
  azure_args, alibaba_args,
}
use bank_vaults.Cli.Flags.{string_flags}

-- Some registered flag is written as `text`.
abbrev pub registered : String → List (String × String) → Bool
registered text [] = false
registered text ((name, default) ∷ flags) =
    (concat ("--" ∷ name ∷ []) == text) || registered text flags

-- The arguments come in pairs of a registered flag and its value.
abbrev pub accepted : List String → Bool
unfolding string_flags
accepted [] = true
accepted (flag ∷ []) = false
accepted (flag ∷ val ∷ args) = registered flag string_flags && accepted args

args_of-accepted :
    (vault : VaultMeta) (k : Option KubernetesUnsealConfig) (g : Option GoogleUnsealConfig)
    (z : Option AzureUnsealConfig) (a : Option AwsUnsealConfig) (b : Option AlibabaUnsealConfig)
    → accepted (args_of vault k g z a b) ≡ true
unfolding args_of kubernetes_args google_args aws_args azure_args alibaba_args string_flags
args_of-accepted vault (some c) g z a b = refl
args_of-accepted vault none (some c) z a b = refl
args_of-accepted vault none none (some c) a b = refl
args_of-accepted vault none none none (some c) b = refl
args_of-accepted vault none none none none (some c) = refl
args_of-accepted vault none none none none none = refl

-- Whatever the unseal configuration is, the operator's arguments are pairs of a flag that the
-- command registers and a value.
pub to_args-accepted :
    (usc : UnsealConfig) (vault : VaultMeta) → accepted (to_args usc vault) ≡ true
unfolding to_args
to_args-accepted usc vault =
    args_of-accepted vault usc.kubernetes usc.google usc.azure usc.aws usc.alibaba
