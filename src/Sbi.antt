-- ===== src/Sbi.antt =====
-- internal/context/context.go and internal/sbi/processor/processor.go: the subscriptions to events of
-- the UPF. `decimal` is fmt.Sprintf("%d"), and `is_request_uri` says where url.ParseRequestURI has no
-- error. The text of an answer is left out, and a time is a number of nanoseconds.
pub mod Subscription
pub mod Refused
pub mod Saved
