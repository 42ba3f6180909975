-- ===== src/Adapter/Usage.antt =====
-- internal/proxy: the tests for a payload without usage, of the two adapters, told in words.
use rein.Base.{ℤ, pos, negsuc, ◌≡◌, ◌↔◌, ap, Bool, true, false, not_true, Option, Text, arith}
use rein.Adapter.{is_zero, no_usage_openai, no_usage_anthropic, Payload, UpstreamResponse}
use rein.Adapter.Billing.{IsBillable}

pub data AdapterName : Type 0 where
  openai_adapter anthropic_adapter : AdapterName

abbrev pub no_usage_of : AdapterName → Payload → Bool
no_usage_of openai_adapter = no_usage_openai
no_usage_of anthropic_adapter = no_usage_anthropic

-- What an adapter takes for usage: OpenAI's total, or a number of tokens of Anthropic's, is not zero.
abbrev pub HasUsage : AdapterName → Payload → Type 0
HasUsage openai_adapter q = ¬ (q.total ≡ pos 0)
HasUsage anthropic_adapter q = ¬ ((q.input ≡ pos 0) × (q.output ≡ pos 0))

is_zero_iff : (n : ℤ) → (is_zero n ≡ true) ↔ (n ≡ pos 0)
is_zero_iff (pos n) = (λ h. ap pos (ground arith), λ h. ground arith)
is_zero_iff (negsuc n) = (λ h. absurd (ground arith), λ h. absurd (ground arith))

pub no_usage_iff : (n : AdapterName) (q : Payload) → (no_usage_of n q ≡ false) ↔ HasUsage n q
unfolding no_usage_openai no_usage_anthropic
no_usage_iff openai_adapter q = (
  λ h e. absurd (ground (arith, is_zero_iff q.total)),
  λ h. not_true (λ e. h ((is_zero_iff _).0 e)),
)
no_usage_iff anthropic_adapter q = (
  λ h e. absurd (ground (arith, is_zero_iff q.input, is_zero_iff q.output)),
  λ h.
      not_true (λ e. h (ground (arith, is_zero_iff q.input), ground (arith, is_zero_iff q.output))),
)

pub map-IsBillable :
    {P Q : Payload → Type 0} {decode : Text → Option Payload} {resp : UpstreamResponse} {id : Text}
    {q : Payload}
    → ((q : Payload) → P q → Q q)
    → IsBillable P decode resp id q
    → IsBillable Q decode resp id q
map-IsBillable f b = record {
  body = b.body;
  no_stream = b.no_stream;
  is_json = b.is_json;
  is_read = b.is_read;
  is_success = b.is_success;
  decodes = b.decodes;
  has_usage = f _ b.has_usage;
  has_key = b.has_key;
}
