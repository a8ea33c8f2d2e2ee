-- ===== src/Tests.antt =====
-- Runs of the code on concrete inputs, and the theorems applied to them.
mod Numbers
mod RateLimiting
mod Caching
mod Planning
mod Providing
mod Observing
mod Choosing
mod Running
mod Checking
mod Reviewing
mod Serving
mod Filtering
