-- ===== src/Webhook.antt =====
-- internal/webhook: the jobs of the webhook queue, the queue on a Redis stream, and the worker.
pub mod Job
pub mod Queue
pub mod Worker
