-- ===== src/Speculative.antt =====
-- speculative/: draft sources, their verification, and the decoder that runs them.
pub mod PromptLookup
pub mod FormDraft
pub mod Acceptance
pub mod Verifier
pub mod Decoder
