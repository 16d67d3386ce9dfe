-- ===== src/Tests.antt =====
-- Runs of the modelled code at concrete inputs.
mod Maps
mod Tracking
mod Setup
mod Strings
mod Messages
mod Negotiation
mod Offers
mod Names
mod Hosts
mod Input
mod Modes
mod Logon
mod Connect
